-- ===== src/Tests/Stealing.antt =====
-- A worker that detaches two frames, of which a thief steals the first; and a choice of a victim.
use pracer.Base.{
  ℕ, suc, ◌&&◌, ◌-◌, ◌≤◌, ◌<◌, ◌≡◌, ◌≢◌, refl, true, ltb, if◌then◌else◌, [], ◌∷◌, mem, Unique,
  Disjoint, ◌⊎◌, arith,
}
use pracer.Scheduler.The.{
  System, store_frame, decrement_tail, advance_owner, advance_thief, the_exception_check,
  reset_the_exception, increment_E, can_steal_from, dekker_protocol, pointer, running, orphaned,
  outside, free, detach, undo_detach, owner_runs, worker_trylock_other, thief_runs, start, Reach,
  begin, later,
}
use pracer.Scheduler.The.Taken.{taken_once, none_lost, orphaned_empty}
use pracer.Scheduler.The.Alone.{
  owner_access, return_from_spawn, steal, steal_alone, return_from_spawn_alone,
}
use pracer.Scheduler.Random.{drawn, rngmod, random_victim, random_victim_other}

abbrev one_detached : System
one_detached = owner_access (store_frame (start 10))

abbrev two_detached : System
two_detached = owner_access (store_frame one_detached)

abbrev stolen_one : System
stolen_one = steal two_detached

abbrev returned : System
returned = owner_access (decrement_tail stolen_one)

abbrev without_parent : System
without_parent = return_from_spawn returned

two_steps : Reach 10 two_detached
unfolding store_frame advance_owner
two_steps = later (later (later (later begin (detach refl)) owner_runs) (detach refl)) owner_runs

steal_steps : Reach 10 stolen_one
unfolding store_frame advance_owner advance_thief increment_E can_steal_from
steal_steps =
    later
      (later
        (later (later (later two_steps (worker_trylock_other refl refl)) thief_runs) thief_runs)
        thief_runs)
      thief_runs

return_steps : Reach 10 returned
unfolding store_frame advance_owner advance_thief increment_E can_steal_from decrement_tail
return_steps = later (later steal_steps (undo_detach refl (omega arith))) owner_runs

end_steps : Reach 10 without_parent
unfolding store_frame advance_owner advance_thief increment_E can_steal_from decrement_tail
    the_exception_check reset_the_exception
end_steps =
    later
      (later (later (later return_steps (undo_detach refl (omega arith))) owner_runs) owner_runs)
      owner_runs

run_taken : (without_parent.popped ≡ 1 ∷ []) × (without_parent.stolen ≡ 0 ∷ [])
unfolding store_frame advance_owner advance_thief increment_E can_steal_from decrement_tail
    the_exception_check reset_the_exception
run_taken = (refl, refl)

taken_once_example :
    Unique without_parent.popped
    × Unique without_parent.stolen
    × Disjoint without_parent.popped without_parent.stolen
taken_once_example = taken_once 10 without_parent end_steps

none_lost_example :
    (mem 0 returned.popped ≡ true)
    ⊎ ((mem 0 returned.stolen ≡ true)
        ⊎ ((i : ℕ) × (returned.deque.head ≤ i)
            × (i < returned.deque.tail)
            × (returned.deque.ltq i ≡ 0)))
unfolding store_frame advance_owner advance_thief increment_E can_steal_from decrement_tail
none_lost_example = none_lost 10 returned 0 return_steps refl refl (omega arith)

orphaned_empty_example :
    (without_parent.deque.head ≡ without_parent.deque.tail)
    × ((mem 1 without_parent.popped ≡ true) ⊎ (mem 1 without_parent.stolen ≡ true))
unfolding store_frame advance_owner advance_thief increment_E can_steal_from decrement_tail
    the_exception_check reset_the_exception
orphaned_empty_example = orphaned_empty 10 without_parent 1 end_steps refl refl (omega arith)

steal_alone_example :
    (let d = two_detached.deque in
      let may = ltb d.head d.tail && ltb d.head d.protected_tail in
      let head' : ℕ = if may then suc d.head else d.head in
      (stolen_one.stolen
        ≡ (if may then d.ltq d.head ∷ two_detached.stolen else two_detached.stolen))
      × (stolen_one.deque ≡ record d { head = head'; exc = pointer head' })
      × (stolen_one.owner ≡ two_detached.owner)
      × (stolen_one.popped ≡ two_detached.popped)
      × (stolen_one.thief ≡ outside)
      × (stolen_one.lock ≡ free)
      × ((dekker_protocol d).0 ≡ may)
      × ((dekker_protocol d).1.exc ≡ pointer head'))
unfolding store_frame advance_owner
steal_alone_example = steal_alone 10 two_detached two_steps refl

return_from_spawn_alone_example :
    (let here = ltb returned.deque.head returned.deque.tail in
      (without_parent.owner ≡ (if here then running else orphaned))
      × (without_parent.popped ≡ (
          if here
          then returned.deque.ltq (returned.deque.tail - 1) ∷ returned.popped
          else returned.popped))
      × (without_parent.deque.tail
          ≡ (if here then returned.deque.tail - 1 else returned.deque.tail))
      × (without_parent.deque.head ≡ returned.deque.head)
      × (without_parent.lock ≡ free))
unfolding store_frame advance_owner advance_thief increment_E can_steal_from decrement_tail
return_from_spawn_alone_example =
    return_from_spawn_alone 10 returned return_steps refl refl (omega arith)

random_victim_other_example :
    (0 < drawn 3 5)
    × (drawn 3 5 < rngmod)
    × (random_victim 2 4 (drawn 3 5) < 4)
    × (random_victim 2 4 (drawn 3 5) ≢ 2)
random_victim_other_example = random_victim_other 3 5 2 4 (omega arith) (omega arith)
