-- ===== src/Storage/Recorder/Refused.antt =====
-- A record that cannot be written ends its session.
use dragon_sniff.Prelude.{
  ℕ, String, Bool, true, false, List, [], ◌∷◌, none, some, str_eq, if◌then◌else◌, length, ◌≡◌, refl,
  ap, sym, ◌∙◌, ◌⊎◌, Bool-cases, Option-cases, inl, inr,
}
use mathlib.Core.Path.{subst}
use dragon_sniff.Prelude.Dict.{lookup, lookup-erase}
use dragon_sniff.Prelude.Result.{Result, err}
use dragon_sniff.Json.{Fields}
use dragon_sniff.Runtime.{Runtime, Bytes}
use dragon_sniff.Storage.Metadata.{Metadata, failed, is_valid_session_id}
use dragon_sniff.Storage.Sessions.{
  Store, StoreError, os_error, not_persisted, MetadataWrite, replaced, fails_before, fails_after,
  EvidenceWrite, torn, append, append_line, metadata_for, is_active, finish, finish_session,
  with_failure, write_metadata,
}
use dragon_sniff.Storage.Sessions.Appending.{Backed, lookup-assign_self}
use dragon_sniff.Storage.Retention.{
  FileSystem, Object, sum_bytes, forget, discover_invalid, storage_objects, candidates,
  enforce_retention,
}
use dragon_sniff.Storage.Retention.Oldest.{forget_all, remove_until-Removes}
use dragon_sniff.Storage.Recorder.{
  Weather, then_terminal, terminal_status, kind_name, finish_and_retain, marked_failed,
  before_record_visible,
}

-- A session that takes no more records: it is marked as failed, or retention has removed it.
pub data Closed (t : Store) (id : String) : Type 0 where
  removed : lookup id t.metadata ≡ none → Closed t id
  marked : (m : Metadata) → lookup id t.metadata ≡ some m → m.status ≡ failed → Closed t id

forget_all-lookup :
    (id : String) (os : List Object) (s : Store)
    → (lookup id (forget_all os s).metadata ≡ none)
      ⊎ (lookup id (forget_all os s).metadata ≡ lookup id s.metadata)
unfolding forget_all forget
forget_all-lookup id [] s = inr refl
forget_all-lookup id (o ∷ os) s =
    behind (forget_all-lookup id os (forget o.session_id s)) (Bool-cases (str_eq o.session_id id))
  where
    erased :
        (b : Bool)
        → str_eq o.session_id id ≡ b
        → lookup id (forget o.session_id s).metadata ≡ (if b then none else lookup id s.metadata)
    erased b e =
        lookup-erase o.session_id id s.metadata
        ∙ ap (λ c. if c then none else lookup id s.metadata) e

    behind :
        (lookup id (forget_all os (forget o.session_id s)).metadata ≡ none)
          ⊎ (lookup id (forget_all os (forget o.session_id s)).metadata
              ≡ lookup id (forget o.session_id s).metadata)
        → (str_eq o.session_id id ≡ true) ⊎ (str_eq o.session_id id ≡ false)
        → (lookup id (forget_all (o ∷ os) s).metadata ≡ none)
          ⊎ (lookup id (forget_all (o ∷ os) s).metadata ≡ lookup id s.metadata)
    behind (inl gone) q = inl gone
    behind (inr kept) (inl same) = inl (kept ∙ erased true same)
    behind (inr kept) (inr other) = inr (kept ∙ erased false other)

enforce_retention-Closed :
    (fs : FileSystem) (id : String) (s : Store) (m : Metadata)
    → lookup id s.metadata ≡ some m
    → m.status ≡ failed
    → Closed (enforce_retention fs s) id
unfolding enforce_retention discover_invalid
enforce_retention-Closed fs id s m held status =
    let objects = storage_objects fs (discover_invalid s) in
    let r =
      remove_until-Removes fs (discover_invalid s) (sum_bytes objects) (length objects)
        (candidates objects) in
    either r.removed r.result (forget_all-lookup id r.removed (discover_invalid s))
  where
    either :
        (os : List Object)
        → enforce_retention fs s ≡ forget_all os (discover_invalid s)
        → (lookup id (forget_all os (discover_invalid s)).metadata ≡ none)
          ⊎ (lookup id (forget_all os (discover_invalid s)).metadata ≡ lookup id s.metadata)
        → Closed (enforce_retention fs s) id
    either os e (inl gone) = removed (ap (λ (t : Store). lookup id t.metadata) e ∙ gone)
    either os e (inr kept) =
        marked m (ap (λ (t : Store). lookup id t.metadata) e ∙ kept ∙ held) status

with_failure-status :
    (reason : String) (m : Metadata) → (with_failure (some reason) m).status ≡ m.status
with_failure-status reason m = elim (Option-cases m.failure) [
  | inl first ↦ rw first refl
  | inr (earlier, kept) ↦ rw kept refl
]

-- Marking an active session as failed.
finish_and_retain-Closed :
    (py : Runtime) (fs : FileSystem) (now id reason : String) (s : Store) (m : Metadata)
    → is_valid_session_id id ≡ true
    → lookup id s.metadata ≡ some m
    → is_active m ≡ true
    → Closed (finish_and_retain py replaced fs now id failed (some reason) s).0 id
unfolding finish_and_retain finish finish_session metadata_for write_metadata
finish_and_retain-Closed py fs now id reason s m valid held live =
    let m' = record m { status = failed; updated_at = now; finished_at = some now } in
    rw (valid, held, live, finish_and_retain, finish, metadata_for, finish_session)
      (enforce_retention-Closed fs id _ (with_failure (some reason) m')
        (lookup-assign_self id (with_failure (some reason) m') s.metadata)
        (with_failure-status reason m'))

failed_inactive : (m : Metadata) → m.status ≡ failed → is_active m ≡ false
failed_inactive m h = rw h refl

-- A closed session takes no record.
append-Closed :
    (py : Runtime) (write : EvidenceWrite) (cw : MetadataWrite) (now id : String) (r : Fields)
    (t : Store)
    → Closed t id
    → (append py write cw now id r t).0 ≡ t
unfolding append metadata_for
append-Closed py write cw now id r t c = elim (Bool-cases (is_valid_session_id id)) [
  | inr bad ↦ rw (bad, append, metadata_for) refl
  | inl good ↦ by_state good c
]
  where
    by_state : is_valid_session_id id ≡ true → Closed t id → (append py write cw now id r t).0 ≡ t
    by_state good (removed gone) = rw (good, gone, append, metadata_for) refl
    by_state good (marked m held status) =
        rw (good, held, failed_inactive m status, append, metadata_for) refl

append-torn_raises :
    (py : Runtime) (cw : MetadataWrite) (now id : String) (r : Fields) (n : ℕ) (s : Store)
    (m : Metadata) (file : Bytes)
    → Backed s id m file
    → ((append py (torn n) cw now id r s).1 ≡ err os_error)
      × ((append py (torn n) cw now id r s).0.metadata ≡ s.metadata)
unfolding append metadata_for append_line
append-torn_raises py cw now id r n s m file b =
    rw (b.valid, b.held, b.live, b.on_disk, append, metadata_for, append_line) (refl, refl)

-- The call as a whole.
before_record_visible-eq :
    (py : Runtime) (w : Weather) (now id reason : String) (r : Fields) (n : ℕ) (s : Store)
    (m : Metadata) (file : Bytes)
    → Backed s id m file
    → w.line ≡ torn n
    → before_record_visible py w now id reason r s ≡ (
      (finish_and_retain py w.failure w.files now id failed
          (some reason)
          (append py (torn n) w.checkpoint now id r s).0).0,
      err not_persisted,
    )
unfolding before_record_visible
before_record_visible-eq py w now id reason r n s m file b line =
    let call = append py (torn n) w.checkpoint now id r s in
    let outcome : call.1 ≡ err os_error =
      (append-torn_raises py w.checkpoint now id r n s m file b).0 in
    let whole : call ≡ (call.0, err os_error) = λ i. (call.0, outcome i) in
    ap
      (λ l. marked_failed py w now id reason (
        then_terminal py w now id (terminal_status (kind_name r))
          (append py l w.checkpoint now id r s)))
      line
    ∙ ap
        (λ x.
          marked_failed py w now id reason
            (then_terminal py w now id (terminal_status (kind_name r)) x))
        whole

-- What an attempt to mark a session as failed leaves, by how the write goes.
abbrev Marks : MetadataWrite → Metadata → Store → String → Type 0
Marks replaced m t id = Closed t id
Marks _ m t id = lookup id t.metadata ≡ some m

-- A status that cannot be written leaves the metadata in memory.
finish_and_retain_held :
    (py : Runtime) (write : MetadataWrite) (fs : FileSystem) (now id reason : String) (s : Store)
    (m : Metadata)
    → is_valid_session_id id ≡ true
    → lookup id s.metadata ≡ some m
    → is_active m ≡ true
    → Marks write m (finish_and_retain py write fs now id failed (some reason) s).0 id
unfolding finish_and_retain finish finish_session metadata_for write_metadata
finish_and_retain_held py replaced fs now id reason s m valid held live =
    finish_and_retain-Closed py fs now id reason s m valid held live
finish_and_retain_held py fails_before fs now id reason s m valid held live =
    rw (valid, held, live, finish_and_retain, finish, metadata_for, finish_session) held
finish_and_retain_held py fails_after fs now id reason s m valid held live =
    rw (valid, held, live, finish_and_retain, finish, metadata_for, finish_session) held

-- What the refusal leaves: a closed session that no later append changes, or, where the status cannot
-- be written, the session as it was in memory.
abbrev pub Leaves : Runtime → MetadataWrite → Metadata → Store → String → Type 0
Leaves py replaced m t id =
    Closed t id
    × ((later : Fields) (write : EvidenceWrite) (cw : MetadataWrite) (at : String)
        → (append py write cw at id later t).0 ≡ t)
Leaves py _ m t id = lookup id t.metadata ≡ some m

Marks-Leaves :
    (py : Runtime) (write : MetadataWrite) (m : Metadata) (t : Store) (id : String)
    → Marks write m t id
    → Leaves py write m t id
Marks-Leaves py replaced m t id c =
    (c, λ later write cw at. append-Closed py write cw at id later t c)
Marks-Leaves py fails_before m t id h = h
Marks-Leaves py fails_after m t id h = h

-- A record whose line cannot be written whole is refused with an exception, whatever becomes of the
-- status. Where the status is written, the session is closed: it is marked as failed or retention has
-- removed it, and no later append changes anything. Where it is not, the session keeps its metadata in
-- memory, so that it stays active and the record is not counted.
pub before_record_visible-Leaves :
    (py : Runtime) (w : Weather) (now id reason : String) (r : Fields) (n : ℕ) (s : Store)
    (m : Metadata) (file : Bytes)
    → Backed s id m file
    → w.line ≡ torn n
    → let t = before_record_visible py w now id reason r s in
      (t.1 ≡ err not_persisted) × Leaves py w.failure m t.0 id
before_record_visible-Leaves py w now id reason r n s m file b line =
    let e = before_record_visible-eq py w now id reason r n s m file b line in
    let call = append py (torn n) w.checkpoint now id r s in
    let held : lookup id call.0.metadata ≡ some m =
      ap (lookup id) (append-torn_raises py w.checkpoint now id r n s m file b).1 ∙ b.held in
    (
      ap (λ (x : Store × Result StoreError (Unit {0})). x.1) e,
      Marks-Leaves py w.failure m (before_record_visible py w now id reason r s).0 id (
          subst (λ (x : Store × Result StoreError (Unit {0})). Marks w.failure m x.0 id) (sym e)
            (finish_and_retain_held py w.failure w.files now id reason call.0 m b.valid held
              b.live)),
    )
