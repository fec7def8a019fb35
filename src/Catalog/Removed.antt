-- ===== src/Catalog/Removed.antt =====
-- crates/catalog/src/reconcile.rs: what a pass over a source removes.
use frontkeep.Base.{
  ℕ, String, ◌≡◌, refl, subst, inl, inr, Bool, true, false, not, ◌&&◌, some, List, [], ◌∷◌, map,
  ◌==◌, eq_iff, eq_refl, arith, Bool-cases, any, keep, All, contains, update_where, ok, by_key,
}
use frontkeep.Catalog.Observed.{published, reconcile_raws-seen}
use frontkeep.Catalog.Reconcile.{
  start, reconcile_raws, removal, remove_unseen, reconcile, RawManifest, Pass, Reader,
}
use frontkeep.Catalog.Repo.{
  row_uid, is_active_for, row_ref, active_refs_for_source, soft_delete, EntityRow, CatalogDb,
}
use frontkeep.Storage.Audit.{AuditRecord}
use frontkeep.Storage.Env.{Env}

module _ (to_lowercase : String → String) (source_id : String) (seen : List String) where
  -- A live row of the source that the pass has not seen.
  abbrev is_orphan : EntityRow → Bool
  is_orphan row = is_active_for source_id row && not (contains seen (row_ref to_lowercase row))

  abbrev pub NoOrphans : List EntityRow → Type 0
  NoOrphans rows = All (λ row. is_orphan row ≡ false) rows

  abbrev is_pair : EntityRow → String × String → Bool
  is_pair row (uid, ref) = row.uid == uid && row_ref to_lowercase row == ref

  -- Every orphan is still to be looked at.
  abbrev AreListed : List (String × String) → List EntityRow → Type 0
  AreListed left rows = All (λ row. is_orphan row ≡ true → any (is_pair row) left ≡ true) rows

  AreListed-cons :
      (s : String × String) (left : List (String × String)) (rows : List EntityRow)
      → AreListed left rows
      → AreListed (s ∷ left) rows
  AreListed-cons s left [] h = tt
  AreListed-cons s left (row ∷ rows) (h, hs) =
      ((λ bad. ground (arith, h bad)), AreListed-cons s left rows hs)

  abbrev pairs : List EntityRow → List (String × String)
  pairs rows =
      map (λ row. (row.uid, row_ref to_lowercase row)) (keep (is_active_for source_id) rows)

  -- At first all of them are.
  AreListed-pairs : (rows : List EntityRow) → AreListed (pairs rows) rows
  AreListed-pairs [] = tt
  AreListed-pairs (row ∷ rows) =
      let rest = AreListed-pairs rows in
      elim (Bool-cases (is_active_for source_id row)) [
        | inl mine ↦
            let more = AreListed-cons (row.uid, row_ref to_lowercase row) (pairs rows) rows rest in
            (
              (λ bad. ground (arith, mine, eq_refl row.uid, eq_refl (row_ref to_lowercase row))),
              subst (λ left. AreListed left rows)
                  {x = (row.uid, row_ref to_lowercase row) ∷ pairs rows} (ground (arith, mine))
                  more,
            )
        | inr other ↦ (
          (λ bad. ground (arith, bad, other)),
          subst (λ left. AreListed left rows) {x = pairs rows} (ground (arith, other)) rest,
        )
      ]

  -- One that the pass has seen is no orphan.
  AreListed-seen :
      (uid ref : String) (left : List (String × String)) (rows : List EntityRow)
      → contains seen ref ≡ true
      → AreListed ((uid, ref) ∷ left) rows
      → AreListed left rows
  AreListed-seen uid ref left [] known h = tt
  AreListed-seen uid ref left (row ∷ rows) known (h, hs) = (
    (λ bad. ground (arith, h bad, bad, known, eq_iff (row_ref to_lowercase row) ref)),
    AreListed-seen uid ref left rows known hs,
  )

  -- One that is deleted is no orphan any more.
  AreListed-deleted :
      (now : ℕ) (uid ref : String) (left : List (String × String)) (rows : List EntityRow)
      → AreListed ((uid, ref) ∷ left) rows
      → AreListed left (
          update_where
            (by_key row_uid uid)
            (λ row. record row { deleted_at = some now; updated_at = now })
            rows)
  AreListed-deleted now uid ref left [] h = tt
  AreListed-deleted now uid ref left (row ∷ rows) (h, hs) =
      ((λ bad. ground (arith, h, bad)), AreListed-deleted now uid ref left rows hs)

  NoOrphans-of : (rows : List EntityRow) → AreListed [] rows → NoOrphans rows
  NoOrphans-of [] h = tt
  NoOrphans-of (row ∷ rows) (h, hs) = (ground (arith, h), NoOrphans-of rows hs)

module _ (reader : Reader) (envs : ℕ → Env) (source_id : String) where
  remove_unseen-NoOrphans :
      (pass : Pass) (left : List (String × String))
      → AreListed reader.to_lowercase source_id pass.seen left pass.db.entities
      → NoOrphans reader.to_lowercase source_id pass.seen
          (remove_unseen reader envs source_id pass left).db.entities
  unfolding remove_unseen soft_delete
  remove_unseen-NoOrphans pass [] h =
      NoOrphans-of reader.to_lowercase source_id pass.seen pass.db.entities h
  remove_unseen-NoOrphans pass ((uid, ref) ∷ left) h = elim (Bool-cases (contains pass.seen ref)) [
    | inl known ↦
        rw (known, remove_unseen)
          (remove_unseen-NoOrphans pass left (
            AreListed-seen reader.to_lowercase source_id pass.seen uid ref left pass.db.entities
              known h))
    | inr gone ↦
        let deleted =
          AreListed-deleted reader.to_lowercase source_id pass.seen (envs pass.taken).now uid ref
            left pass.db.entities h in
        rw (gone, remove_unseen)
          (remove_unseen-NoOrphans (removal reader envs source_id pass uid ref) left deleted)
  ]

  -- A pass over a source that was fetched succeeds, and after it every live row of the source is one
  -- that the fetched files publish, in a manifest that is accepted: what was taken out of the source
  -- is deleted.
  pub reconcile-NoOrphans :
      (raws : List RawManifest) (db : CatalogDb) (log : List AuditRecord)
      → (pass : Pass) × (reconcile reader envs source_id (ok raws) db log ≡ ok pass)
        × NoOrphans reader.to_lowercase source_id (published reader raws) pass.db.entities
  unfolding reconcile active_refs_for_source
  reconcile-NoOrphans raws db log =
      let pass = reconcile_raws reader envs source_id (start db log) raws in
      let left = pairs reader.to_lowercase source_id pass.seen pass.db.entities in
      let seen : pass.seen ≡ published reader raws =
        reconcile_raws-seen reader envs source_id (start db log) raws in
      (
        remove_unseen reader envs source_id pass left,
        refl,
        subst
            (λ s.
              NoOrphans reader.to_lowercase source_id s
                (remove_unseen reader envs source_id pass left).db.entities)
            seen
            (remove_unseen-NoOrphans pass left
              (AreListed-pairs reader.to_lowercase source_id pass.seen pass.db.entities)),
      )
