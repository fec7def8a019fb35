-- ===== src/Storage/Exclusion.antt =====
-- crates/storage/src/leases.rs: the holder of a lease, under the calls of several processes.
use frontkeep.Base.{
  ℕ, ◌≤◌, ◌<◌, String, ◌≡◌, refl, ◌≢◌, ◌↔◌, ◌⊎◌, inl, inr, true, false, ◌&&◌, none, some, List, [],
  ◌∷◌, ◌==◌, eq_iff, eq_refl, arith, if◌then◌else◌, Option-cases, All, row_of, row_of-update,
  row_of-insert, row_of-key,
}
use frontkeep.Storage.Env.{plus_seconds}
use frontkeep.Storage.Leases.{
  lease_name, try_acquire, renew, release, step, run, LeaseRow, LeaseCall, acquires, renews,
  releases,
}

-- A read of any name after an acquisition.
pub find-try_acquire :
    (now : ℕ) (holder name other : String) (ttl : ℕ) (rows : List LeaseRow)
    → row_of lease_name other (try_acquire now holder name ttl rows).0 ≡ (
        if other == name && (try_acquire now holder name ttl rows).1
        then some (record { name = name; holder = holder; expires_at = plus_seconds now ttl })
        else row_of lease_name other rows)
unfolding try_acquire
find-try_acquire now holder name other ttl rows =
    let write : LeaseRow → LeaseRow =
      λ old. record old { holder = holder; expires_at = plus_seconds now ttl } in
    elim (Option-cases (row_of lease_name name rows)) [
      | inl free ↦ ground (
        arith,
        free,
        row_of-insert lease_name
            (record { name = name; holder = holder; expires_at = plus_seconds now ttl }) other rows
            free,
      )
      | inr (row, found) ↦ ground (
        arith,
        found,
        row_of-key lease_name name rows row found,
        eq_iff row.holder holder,
        eq_iff other name,
        row_of-update lease_name write name other rows (λ x. refl),
      )
    ]

-- An acquisition succeeds exactly when the lease is free, already the caller's, or expired; it is
-- then the caller's until `ttl` seconds from the call, and if it fails the row is as before. No
-- acquisition touches the row of another name.
pub try_acquire_lem :
    (now : ℕ) (holder name : String) (ttl : ℕ) (rows : List LeaseRow)
    → ((try_acquire now holder name ttl rows).1 ≡ true ↔ (
        (row_of lease_name name rows ≡ none)
        ⊎ ((row : LeaseRow) × (row_of lease_name name rows ≡ some row)
            × ((row.holder ≡ holder) ⊎ (row.expires_at < now)))))
      × ((other : String)
          → row_of lease_name other (try_acquire now holder name ttl rows).0 ≡ (
              if other == name && (try_acquire now holder name ttl rows).1
              then some (record { name = name; holder = holder; expires_at = plus_seconds now ttl })
              else row_of lease_name other rows))
unfolding try_acquire
try_acquire_lem now holder name ttl rows = (
  elim (Option-cases (row_of lease_name name rows)) [
    | inl free ↦ (λ h. inl free, λ h. ground (arith, free))
    | inr (row, found) ↦ (
      λ h. inr (row, found, ground (arith, found, eq_iff row.holder holder)),
      λ h. ground (arith, found, eq_iff row.holder holder),
    )
  ],
  λ other. find-try_acquire now holder name other ttl rows,
)

-- A call that cannot take the lease of this row: it is about another name, or by another holder
-- and no later than the expiry.
abbrev pub IsForeign : LeaseRow → LeaseCall → Type 0
IsForeign row (acquires now holder name ttl) =
    (name ≢ row.name) ⊎ ((holder ≢ row.holder) × (now ≤ row.expires_at))
IsForeign row (renews now holder name ttl) =
    (name ≢ row.name) ⊎ ((holder ≢ row.holder) × (now ≤ row.expires_at))
IsForeign row (releases holder name) = (name ≢ row.name) ⊎ (holder ≢ row.holder)

release_foreign :
    (holder name : String) (row : LeaseRow) (rows : List LeaseRow)
    → (name ≢ row.name) ⊎ (holder ≢ row.holder)
    → row_of lease_name row.name rows ≡ some row
    → row_of lease_name row.name (release holder name rows) ≡ some row
unfolding release
release_foreign holder name row [] h found = cc
release_foreign holder name row (r ∷ rows) h found = ground (
  arith,
  release_foreign holder name row rows h,
  eq_iff r.name name,
  eq_iff r.holder holder,
  eq_iff r.name row.name,
)

acquire_foreign :
    (now : ℕ) (holder name : String) (ttl : ℕ) (row : LeaseRow) (rows : List LeaseRow)
    → (name ≢ row.name) ⊎ ((holder ≢ row.holder) × (now ≤ row.expires_at))
    → row_of lease_name row.name rows ≡ some row
    → row_of lease_name row.name (try_acquire now holder name ttl rows).0 ≡ some row
acquire_foreign now holder name ttl row rows h found =
    let (who, reads) = try_acquire_lem now holder name ttl rows in
    ground (arith, who, reads row.name, eq_iff row.name name)

step_foreign :
    (row : LeaseRow) (rows : List LeaseRow) (c : LeaseCall)
    → IsForeign row c
    → row_of lease_name row.name rows ≡ some row
    → row_of lease_name row.name (step rows c) ≡ some row
unfolding step renew
step_foreign row rows (acquires now holder name ttl) h found =
    acquire_foreign now holder name ttl row rows h found
step_foreign row rows (renews now holder name ttl) h found =
    acquire_foreign now holder name ttl row rows h found
step_foreign row rows (releases holder name) h found = release_foreign holder name row rows h found

AllForeign-run :
    (row : LeaseRow) (rows : List LeaseRow) (cs : List LeaseCall)
    → All (IsForeign row) cs
    → row_of lease_name row.name rows ≡ some row
    → row_of lease_name row.name (run rows cs) ≡ some row
unfolding run
AllForeign-run row rows [] foreign found = found
AllForeign-run row rows (c ∷ cs) (one, others) found =
    AllForeign-run row (step rows c) cs others (step_foreign row rows c one found)

-- Mutual exclusion: once `try_acquire` has given a process the lease until some instant, then
-- whatever other processes call, in any order and with clocks that do not pass that instant, and
-- whatever is called for other names, another holder that asks for the lease no later than that
-- instant is refused.
pub run-IsExclusive :
    (now : ℕ) (holder name : String) (ttl : ℕ) (rows : List LeaseRow) (cs : List LeaseCall)
    (now' : ℕ) (holder' : String) (ttl' : ℕ)
    → (try_acquire now holder name ttl rows).1 ≡ true
    → All
        (IsForeign (record { name = name; holder = holder; expires_at = plus_seconds now ttl }))
        cs
    → holder' ≢ holder
    → now' ≤ plus_seconds now ttl
    → (try_acquire now' holder' name ttl' (run (try_acquire now holder name ttl rows).0 cs)).1
      ≡ false
run-IsExclusive now holder name ttl rows cs now' holder' ttl' won foreign apart early =
    let row : LeaseRow = record {
      name = name;
      holder = holder;
      expires_at = plus_seconds now ttl;
    } in
    let rows' = (try_acquire now holder name ttl rows).0 in
    let mine : row_of lease_name name rows' ≡ some row =
      ground (arith, find-try_acquire now holder name name ttl rows, eq_refl name) in
    let still = AllForeign-run row rows' cs foreign mine in
    let (who, reads) = try_acquire_lem now' holder' name ttl' (run rows' cs) in
    ground (arith, who, still)
