-- ===== src/Sync/Answers.antt =====
-- src/sync.rs, the coroutine: the answers to a chunk of pushes, entered in the tables.
use io_replica.Base.{
  Bool, true, false, ◌||◌, Option, none, some, List, [], ◌∷◌, if◌then◌else◌, unwrap_or,
}
use io_replica.Base.Map.{Map, get, from_entries}
use io_replica.Base.Map
use io_replica.Base.Set
use io_replica.Placement.{Handle, Placement}
use io_replica.Remote.{PushResult, PushOutcome, accepted, rejected}
use io_replica.Change.{deleted, superseded}
use io_replica.Sync.Options.{flags_changed, content_changed, vanished, created}
use io_replica.Sync.Engine.{Sync, emit, count_rejected, count_pushed}
use io_replica.Sync.Rows.{rebase, rebase_content, rekey_create}
use io_replica.Sync.Rows

-- The four tables that an accepted push may be waiting in. Each answers whether it was.
unfoldable pub accept_flags : Option Placement → PushResult → Sync → Sync × Bool
unfolding rebase Map.remove
accept_flags none r s = (s, false)
accept_flags (some p) r s = (
  emit (flags_changed r.handle) (
      rebase p p.flags
        (record s { pending_flag_pushes = Map.remove r.handle s.pending_flag_pushes })),
  true,
)

unfoldable pub accept_content : Option Placement → PushResult → Sync → Sync × Bool
unfolding rebase_content Map.remove
accept_content none r s = (s, false)
accept_content (some p) r s = (
  emit (content_changed r.handle) (
      rebase_content p r.revision
        (record s { pending_content_pushes = Map.remove r.handle s.pending_content_pushes })),
  true,
)

unfoldable pub accept_drop : Bool → PushResult → Sync → Sync × Bool
unfolding Rows.drop Set.remove
accept_drop false r s = (s, false)
accept_drop true r s = (
  emit (vanished r.handle) (
      Rows.drop r.handle deleted
        (record s { pending_drops = Set.remove r.handle s.pending_drops })),
  true,
)

place_create : Option Handle → Placement → PushResult → Sync → Sync
unfolding rekey_create Rows.drop
place_create (some assigned) placeholder r s = rekey_create placeholder assigned r.revision s
place_create none placeholder r s = Rows.drop placeholder.handle superseded s

unfoldable pub accept_create : Option Placement → PushResult → Sync → Sync × Bool
unfolding place_create Map.remove
accept_create none r s = (s, false)
accept_create (some placeholder) r s = (
  emit (created (unwrap_or r.assigned r.handle)) (
      place_create r.assigned placeholder r
        (record s { pending_creates = Map.remove r.handle s.pending_creates })),
  true,
)

unfoldable pub accept : PushResult → Sync → Sync
unfolding accept_flags accept_content accept_drop accept_create get Set.contains
accept r s =
    let (s₁, a) = accept_flags (get r.handle s.pending_flag_pushes) r s in
    let (s₂, b) = accept_content (get r.handle s₁.pending_content_pushes) r s₁ in
    let (s₃, c) = accept_drop (Set.contains s₂.pending_drops r.handle) r s₂ in
    let (s₄, d) = accept_create (get r.handle s₃.pending_creates) r s₃ in
    count_pushed (if ((a || b) || c) || d then 1 else 0) s₄

pub apply_outcome : PushOutcome → PushResult → Sync → Sync
unfolding accept
apply_outcome accepted r s = accept r s
apply_outcome rejected r s = count_rejected s

unfoldable pub apply_result : PushResult → Sync → Sync
unfolding apply_outcome
apply_result r s = apply_outcome r.outcome r s

unfoldable pub apply_results : List PushResult → Sync → Sync
unfolding apply_result
apply_results [] s = s
apply_results (r ∷ results) s = apply_results results (apply_result r s)

pub forget_handle : Handle → Sync → Sync
unfolding Map.remove Set.remove
forget_handle h s = record s {
  pending_flag_pushes = Map.remove h s.pending_flag_pushes;
  pending_content_pushes = Map.remove h s.pending_content_pushes;
  pending_drops = Set.remove h s.pending_drops;
  pending_creates = Map.remove h s.pending_creates;
}

-- The loop over the handles in flight, each of them forgotten.
unfoldable pub forget : List Handle → Sync → Sync
unfolding forget_handle
forget [] s = s
forget (h ∷ handles) s = forget handles (forget_handle h s)

abbrev pub forget_in_flight : Sync → Sync
forget_in_flight s = forget s.in_flight (record s { in_flight = [] })
