-- ===== src/ShadowStack/Spawn.antt =====
-- The nodes of a spawn, a sync and a return, of do_detach_begin, do_sync_begin and do_leave_end in
-- rdtool/src/shadow_stack.cpp.
pub mod Series
use pracer.Base.{ℕ, Bool, true, false, Option, none, some, if◌then◌else◌}
use pracer.Pipeline.OmOrder.{OmOrder}

-- The flags are FRAME_HELPER_MASK and FRAME_FULL_MASK; NULL is none.
pub record FrameData : Type 0 where
  pub current_english : Option ℕ
  pub current_hebrew : Option ℕ
  pub cont_english : Option ℕ
  pub cont_hebrew : Option ℕ
  pub sync_english : Option ℕ
  pub sync_hebrew : Option ℕ
  pub is_helper : Bool
  pub is_full : Bool

infixl 5 ◌>>=◌
abbrev pub ◌>>=◌ : {A B : Type 0} → Option A → (A → Option B) → Option B
none >>= f = none
some a >>= f = f a

module _ {S : Type 0} (o : OmOrder S) where
  -- The parent's sync nodes, made at the first spawn of a group.
  abbrev pub sync_nodes :
      (sync_english sync_hebrew : Option ℕ)
      → (current_english current_hebrew : ℕ) → S
      → S
      → Option ℕ × Option ℕ × S × S
  sync_nodes (some se) sh ce ch english hebrew = (some se, sh, english, hebrew)
  sync_nodes none sh ce ch english hebrew =
      let (se, e1) = o.insert ce english in
      let (sh', h1) = o.insert ch hebrew in (some se, some sh', e1, h1)

  -- The parent's frame, the helper's, and the two orders.
  unfoldable pub spawn : FrameData → (english hebrew : S) → Option (FrameData × FrameData × S × S)
  spawn parent english hebrew = parent.current_english >>= λ ce. parent.current_hebrew >>= λ ch.
      let (se, sh, e1, h1) =
        sync_nodes parent.sync_english parent.sync_hebrew ce ch english hebrew in
      let (child_e, e2) = o.insert ce e1 in
      let (cont_e, e3) = o.insert child_e e2 in
      let (cont_h, h2) = o.insert ch h1 in
      let (child_h, h3) = o.insert cont_h h2 in
      some (
        record parent {
          current_english = none;
          current_hebrew = none;
          cont_english = some cont_e;
          cont_hebrew = some cont_h;
          sync_english = se;
          sync_hebrew = sh;
        },
        record {
          current_english = some child_e;
          current_hebrew = some child_h;
          cont_english = none;
          cont_hebrew = none;
          sync_english = none;
          sync_hebrew = none;
          is_helper = true;
          is_full = false;
        },
        e3,
        h3,
      )

-- do_sync_begin on the frame at the head: after a spawn the strand goes on at the sync nodes.
abbrev sync_at : Option ℕ → FrameData → FrameData
sync_at none f = f
sync_at (some se) f = record f {
  current_english = some se;
  current_hebrew = f.sync_hebrew;
  sync_english = none;
  sync_hebrew = none;
}

unfoldable pub sync : FrameData → FrameData
sync f = sync_at f.sync_english f

-- The parent's frame where the child leaves: a called child passes its strand on, after a spawned
-- one the parent goes on at its continuation.
unfoldable pub leave : (child parent : FrameData) → FrameData
leave child parent =
    if child.is_helper
    then record parent {
      current_english = parent.cont_english;
      current_hebrew = parent.cont_hebrew;
      cont_english = none;
      cont_hebrew = none;
    }
    else record parent {
      current_english = child.current_english;
      current_hebrew = child.current_hebrew;
    }

-- The same where the parent was stolen: it goes on at the sync nodes.
unfoldable pub leave_stolen : (child parent : FrameData) → FrameData
leave_stolen child parent =
    if child.is_helper
    then record parent {
      current_english = parent.sync_english;
      current_hebrew = parent.sync_hebrew;
      cont_english = none;
      cont_hebrew = none;
      sync_english = none;
      sync_hebrew = none;
    }
    else record parent {
      current_english = child.current_english;
      current_hebrew = child.current_hebrew;
    }
