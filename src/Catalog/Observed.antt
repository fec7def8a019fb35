-- ===== src/Catalog/Observed.antt =====
-- crates/catalog/src/reconcile.rs: the references that a pass has seen.
use frontkeep.Base.{
  ℕ, ◌+◌, String, ◌≡◌, refl, sym, inl, inr, List, [], ◌∷◌, ◌++◌, append-nil, append_assoc, arith,
  if◌then◌else◌, Option-cases, is_some, Result, err, ok,
}
use frontkeep.Catalog.Entities.{Manifest}
use frontkeep.Catalog.Reconcile.{
  booked, refusal, manifest_ref, refuse, entity_from, accept, reconcile_manifest,
  reconcile_manifests, read_file, reconcile_raw, reconcile_raws, RawManifest, Pass, Reader,
}
use frontkeep.Catalog.Repo.{upsert, Upsert}
use frontkeep.Storage.Env.{Env}

booked-seen :
    (env : Env) (ref : String) (outcome : Upsert) (pass : Pass)
    → (booked env ref outcome pass).seen ≡ pass.seen
booked-seen env ref Upsert.inserted pass = refl
booked-seen env ref Upsert.updated pass = refl
booked-seen env ref Upsert.unchanged pass = refl

module _ (reader : Reader) where
  -- The references of the manifests of a file that are accepted.
  abbrev pub accepted_refs : RawManifest → List Manifest → List String
  accepted_refs raw [] = []
  accepted_refs raw (m ∷ ms) =
      if is_some (refusal reader raw m)
      then accepted_refs raw ms
      else manifest_ref reader m ∷ accepted_refs raw ms

  abbrev file_refs : RawManifest → Result String (List Manifest) → List String
  file_refs raw (err e) = []
  file_refs raw (ok ms) = accepted_refs raw ms

  -- What the source publishes.
  abbrev pub published : List RawManifest → List String
  published [] = []
  published (raw ∷ raws) = file_refs raw (reader.parse_manifests raw.content) ++ published raws

module _ (reader : Reader) (envs : ℕ → Env) (source_id : String) where
  accept-seen :
      (raw : RawManifest) (m : Manifest) (pass : Pass)
      → (accept reader envs source_id raw m pass).seen ≡ pass.seen ++ manifest_ref reader m ∷ []
  accept-seen raw m pass =
      let out = upsert (envs pass.taken) (entity_from reader envs source_id pass raw m) pass.db in
      booked-seen (envs pass.taken) (manifest_ref reader m) out.1 (record pass {
        db = out.0;
        seen = pass.seen ++ manifest_ref reader m ∷ [];
        taken = pass.taken + 1;
      })

  refuse-seen :
      (raw : RawManifest) (m : Manifest) (pass : Pass) (r : String × List String)
      → (refuse reader envs source_id raw m pass r).seen ≡ pass.seen
  refuse-seen raw m pass r = ground arith

  reconcile_manifests-seen :
      (raw : RawManifest) (pass : Pass) (ms : List Manifest)
      → (reconcile_manifests reader envs source_id raw pass ms).seen
        ≡ pass.seen ++ accepted_refs reader raw ms
  unfolding reconcile_manifests reconcile_manifest
  reconcile_manifests-seen raw pass [] = sym (append-nil pass.seen)
  reconcile_manifests-seen raw pass (m ∷ ms) =
      let rest =
        reconcile_manifests-seen raw (reconcile_manifest reader envs source_id raw pass m) ms in
      elim (Option-cases (refusal reader raw m)) [
        | inl fine ↦
            let ref = manifest_ref reader m in
            ground (
              arith,
              fine,
              rest,
              accept-seen raw m pass,
              append_assoc pass.seen (ref ∷ []) (accepted_refs reader raw ms),
            )
        | inr (r, bad) ↦ ground (arith, bad, rest, refuse-seen raw m pass r)
      ]

  read_file-seen :
      (raw : RawManifest) (pass : Pass) (r : Result String (List Manifest))
      → (read_file reader envs source_id raw pass r).seen ≡ pass.seen ++ file_refs reader raw r
  read_file-seen raw pass (err e) = sym (append-nil pass.seen)
  read_file-seen raw pass (ok ms) = reconcile_manifests-seen raw pass ms

  -- The pass has seen what the source publishes.
  pub reconcile_raws-seen :
      (pass : Pass) (raws : List RawManifest)
      → (reconcile_raws reader envs source_id pass raws).seen ≡ pass.seen ++ published reader raws
  unfolding reconcile_raws reconcile_raw
  reconcile_raws-seen pass [] = sym (append-nil pass.seen)
  reconcile_raws-seen pass (raw ∷ raws) =
      let read = reader.parse_manifests raw.content in
      ground (
        arith,
        reconcile_raws-seen (reconcile_raw reader envs source_id pass raw) raws,
        read_file-seen raw pass read,
        append_assoc pass.seen (file_refs reader raw read) (published reader raws),
      )
