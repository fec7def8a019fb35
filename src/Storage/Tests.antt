-- ===== src/Storage/Tests.antt =====
-- crates/storage/src/leases.rs: two processes after one lease.
use frontkeep.Base.{
  ◌<◌, String, ◌≡◌, refl, ◌↔◌, ◌⊎◌, inl, inr, true, false, ◌&&◌, none, some, List, [], ◌∷◌, ◌==◌,
  arith, if◌then◌else◌, texts_differ, row_of,
}
use frontkeep.Storage.Exclusion.{try_acquire_lem, run-IsExclusive}
use frontkeep.Storage.Leases.{
  run, lease_name, try_acquire, LeaseRow, LeaseCall, acquires, renews, releases,
}

abbrev others : List LeaseCall
others = acquires 2000 "b" "tick" 60 ∷ releases "b" "tick" ∷ renews 9000 "a" "apply:1" 5 ∷ []

try_acquire_lem_example :
    ((try_acquire 1000 "a" "tick" 60 []).1 ≡ true ↔ (
      (row_of lease_name "tick" [] ≡ none)
      ⊎ ((row : LeaseRow) × (row_of lease_name "tick" [] ≡ some row)
          × ((row.holder ≡ "a") ⊎ (row.expires_at < 1000)))))
    × ((other : String)
        → row_of lease_name other (try_acquire 1000 "a" "tick" 60 []).0 ≡ (
            if other == "tick" && (try_acquire 1000 "a" "tick" 60 []).1
            then some (record { name = "tick"; holder = "a"; expires_at = 61000 })
            else none))
try_acquire_lem_example = try_acquire_lem 1000 "a" "tick" 60 []

run-IsExclusive_example :
    (try_acquire 60999 "b" "tick" 60 (run (try_acquire 1000 "a" "tick" 60 []).0 others)).1 ≡ false
unfolding try_acquire
run-IsExclusive_example =
    run-IsExclusive 1000 "a" "tick" 60 [] others 60999 "b" 60 refl
      (
        inr (texts_differ "b" "a" refl, omega arith),
        (inr (texts_differ "b" "a" refl), (inl (texts_differ "apply:1" "tick" refl), tt)),
      )
      (texts_differ "b" "a" refl) (omega arith)
