-- ===== src/Wallet/Election.antt =====
-- internal/wallet/core/confirm.go: `Start` and `campaign`, the election of one leader among the
-- checkers of several processes, by a key in etcd that lives as long as its lease.
pub mod Moves
pub mod Leader
use web3_blitz.Base.{
  ℕ, ◌≡◌, ◌≢◌, Bool, true, false, not, ◌&&◌, ◌||◌, Option, none, some, ◌==◌, if◌then◌else◌,
}

-- etcd, which is not code of the repository: its states, and what the documentation says of them.
-- `holder` is the lease under which the leader's key stands, and `known` says which leases were
-- ever granted: their numbers are not used again.
pub record Etcd : Type 1 where
  pub Store : Type 0
  pub holder : Store → Option ℕ
  pub is_live : Store → ℕ → Bool
  pub is_known : Store → ℕ → Bool
  -- Grant has made the lease
  pub Granted : Store → ℕ → Store → Type 0
  -- the transaction found no key, and has written it under the lease
  pub Put : Store → ℕ → Store → Type 0
  -- the lease has expired or was revoked, and its key with it
  pub Ended : Store → ℕ → Store → Type 0
  pub granted_new : (s t : Store) (l : ℕ) → Granted s l t → is_known s l ≡ false
  pub granted_known :
      (s t : Store) (l m : ℕ) → Granted s l t → is_known t m ≡ (m == l || is_known s m)
  pub granted_live : (s t : Store) (l m : ℕ) → Granted s l t → is_live t m ≡ (m == l || is_live s m)
  pub granted_holder : (s t : Store) (l : ℕ) → Granted s l t → holder t ≡ holder s
  pub put_absent : (s t : Store) (l : ℕ) → Put s l t → holder s ≡ none
  pub put_holder : (s t : Store) (l : ℕ) → Put s l t → holder t ≡ some l
  pub put_live : (s t : Store) (l m : ℕ) → Put s l t → is_live t m ≡ is_live s m
  pub put_known : (s t : Store) (l m : ℕ) → Put s l t → is_known t m ≡ is_known s m
  pub ended_live :
      (s t : Store) (l m : ℕ) → Ended s l t → is_live t m ≡ (is_live s m && not (m == l))
  pub ended_holder :
      (s t : Store) (l m : ℕ) → Ended s l t → m ≢ l → holder s ≡ some m → holder t ≡ some m
  pub ended_known : (s t : Store) (l m : ℕ) → Ended s l t → is_known t m ≡ is_known s m

-- Where a checker stands, with its lease.
pub data Pc : Type 0 where
  -- in `Start`, before `campaign` or in the pause after it
  waiting : Pc
  -- after Grant, before the transaction
  granted : ℕ → Pc
  -- the transaction has succeeded, KeepAlive is to be called
  elected : ℕ → Pc
  -- in the loop of the leader
  leading : ℕ → Pc
  -- before the Revoke after which `campaign` returns
  leaving : ℕ → Pc
  -- the same, with a context that has ended
  closing : ℕ → Pc
  stopped : Pc

abbrev pub lease : Pc → Option ℕ
lease waiting = none
lease (granted l) = some l
lease (elected l) = some l
lease (leading l) = some l
lease (leaving l) = some l
lease (closing l) = some l
lease stopped = none

-- The lease of a checker that has won, and may run `check`.
abbrev pub leads : Pc → Option ℕ
leads (elected l) = some l
leads (leading l) = some l
leads _ = none

module _ (etcd : Etcd) where
  open etcd use {Store, holder, Granted, Put, Ended}

  -- One call of a checker, or one turn of its loops.
  pub data Move (s : Store) : Pc → Store → Pc → Type 0 where
    grant : {t : Store} {l : ℕ} → Granted s l t → Move s waiting t (granted l)
    grant_error : Move s waiting s waiting
    win : {t : Store} {l : ℕ} → Put s l t → Move s (granted l) t (elected l)
    lose : {l : ℕ} → holder s ≢ none → Move s (granted l) s (leaving l)
    -- an error of the transaction leaves open whether it was carried out
    txn_error : {l : ℕ} → Move s (granted l) s (leaving l)
    txn_error_put : {t : Store} {l : ℕ} → Put s l t → Move s (granted l) t (leaving l)
    keep_alive : {l : ℕ} → Move s (elected l) s (leading l)
    keep_alive_error : {l : ℕ} → Move s (elected l) s (leaving l)
    renewed : {l : ℕ} → Move s (leading l) s (leading l)
    tick : {l : ℕ} → Move s (leading l) s (leading l)
    -- the channel of KeepAlive is closed
    expired : {l : ℕ} → Move s (leading l) s (leaving l)
    done : {l : ℕ} → Move s (leading l) s (closing l)
    revoke : {t : Store} {l : ℕ} → Ended s l t → Move s (leaving l) t waiting
    revoke_error : {l : ℕ} → Move s (leaving l) s waiting
    revoke_closing : {t : Store} {l : ℕ} → Ended s l t → Move s (closing l) t stopped
    revoke_closing_error : {l : ℕ} → Move s (closing l) s stopped
    stop : Move s waiting s stopped

  -- The checkers by number, over one etcd.
  pub record System : Type 0 where
    pub store : Store
    pub pc : ℕ → Pc

  abbrev pub update : (ℕ → Pc) → ℕ → Pc → ℕ → Pc
  update pc i p j = if j == i then p else pc j

  -- A checker moves, or a lease expires, whoever holds it.
  pub data Step (s : System) : System → Type 0 where
    pick :
        {t : Store} {p : Pc} (i : ℕ)
        → Move s.store (s.pc i) t p
        → Step s (record { store = t; pc = update s.pc i p })
    expire : {t : Store} {l : ℕ} → Ended s.store l t → Step s (record { store = t; pc = s.pc })

  -- From a start at which no checker has done anything.
  pub data Reach : System → Type 0 where
    start : (s : Store) → Reach (record { store = s; pc = λ i. waiting })
    later : {s t : System} → Reach s → Step s t → Reach t
