-- ===== src/Storage/Retention/Gone.antt =====
-- What the removal of a session takes from the store.
use dragon_sniff.Prelude.{
  String, List, [], ◌∷◌, none, str_eq, eq_iff, ◌≡◌, refl, arith, ◌∙◌, Bool-cases, inl, inr, All,
}
use dragon_sniff.Prelude.Dict.{Dict, lookup, erase, lookup-erase}
use dragon_sniff.Storage.Sessions.{Store}
use dragon_sniff.Storage.Retention.{Object, forget}
use dragon_sniff.Storage.Retention.Oldest.{forget_all}

-- The store holds nothing of a session.
pub record IsGone (t : Store) (o : Object) : Type 0 where
  pub no_directory : lookup o.session_id t.directories ≡ none
  pub no_metadata : lookup o.session_id t.metadata ≡ none
  pub no_reason : lookup o.session_id t.invalid_sessions ≡ none
  pub no_evidence_size : lookup o.session_id t.evidence_file_bytes ≡ none
  pub no_metadata_size : lookup o.session_id t.metadata_file_bytes ≡ none
  pub no_checkpoint : lookup o.session_id t.pending_checkpoints ≡ none

module _ {A : Type 0} where
  lookup-erased : (id : String) (d : Dict A) → lookup id (erase id d) ≡ none
  lookup-erased id d = lookup-erase id id d ∙ ground (arith, eq_iff id id)

  lookup-erase-none :
      (k id : String) (d : Dict A) → lookup id d ≡ none → lookup id (erase k d) ≡ none
  lookup-erase-none k id d h =
      lookup-erase k id d
      ∙ (elim (Bool-cases (str_eq k id)) [ inl same ↦ rw same refl | inr other ↦ rw other h ])

forget-IsGone : (o : Object) (s : Store) → IsGone (forget o.session_id s) o
unfolding forget
forget-IsGone o s = record {
  no_directory = lookup-erased o.session_id s.directories;
  no_metadata = lookup-erased o.session_id s.metadata;
  no_reason = lookup-erased o.session_id s.invalid_sessions;
  no_evidence_size = lookup-erased o.session_id s.evidence_file_bytes;
  no_metadata_size = lookup-erased o.session_id s.metadata_file_bytes;
  no_checkpoint = lookup-erased o.session_id s.pending_checkpoints;
}

forget_all-IsGone :
    (o : Object) (os : List Object) (s : Store) → IsGone s o → IsGone (forget_all os s) o
unfolding forget_all forget
forget_all-IsGone o [] s h = h
forget_all-IsGone o (q ∷ os) s h = forget_all-IsGone o os (forget q.session_id s) (record {
  no_directory = lookup-erase-none q.session_id o.session_id s.directories h.no_directory;
  no_metadata = lookup-erase-none q.session_id o.session_id s.metadata h.no_metadata;
  no_reason = lookup-erase-none q.session_id o.session_id s.invalid_sessions h.no_reason;
  no_evidence_size =
      lookup-erase-none q.session_id o.session_id s.evidence_file_bytes h.no_evidence_size;
  no_metadata_size =
      lookup-erase-none q.session_id o.session_id s.metadata_file_bytes h.no_metadata_size;
  no_checkpoint = lookup-erase-none q.session_id o.session_id s.pending_checkpoints h.no_checkpoint;
})

pub forget_all-AreGone : (os : List Object) (s : Store) → All (IsGone (forget_all os s)) os
unfolding forget_all
forget_all-AreGone [] s = tt
forget_all-AreGone (o ∷ os) s = (
  forget_all-IsGone o os (forget o.session_id s) (forget-IsGone o s),
  forget_all-AreGone os (forget o.session_id s),
)
