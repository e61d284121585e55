-- ===== src/Wallet/Election/Leader.antt =====
-- At most one checker leads on a lease that is alive.
use web3_blitz.Base.{ℕ, ◌≡◌, ◌⊎◌, inl, inr, sym, ◌∙◌, true, false, some, ◌==◌, ==-true, Bool-cases}
use web3_blitz.Wallet.Election.{
  Etcd, Pc, lease, leads, Move, System, update, Step, pick, expire, Reach, start, later,
}
use web3_blitz.Wallet.Election.Moves.{leads-lease, Keeps-ended, Keeps-move, lease-move, leads-move}

module _ (etcd : Etcd) where
  open etcd use {Store, holder, is_live, is_known}

  record Inv (s : System etcd) : Type 0 where
    known : (i l : ℕ) → lease (s.pc i) ≡ some l → is_known s.store l ≡ true
    unique : (i j l : ℕ) → lease (s.pc i) ≡ some l → lease (s.pc j) ≡ some l → i ≡ j
    holds : (i l : ℕ) → leads (s.pc i) ≡ some l → is_live s.store l ≡ true → holder s.store ≡ some l

  module _ (s : System etcd) {t : Store} {p : Pc} (i : ℕ) (mv : Move etcd s.store (s.pc i) t p)
      (inv : Inv s) where
    -- The lease of a checker after the move of the checker `i`.
    moved-lease :
        (k l : ℕ)
        → lease (update etcd s.pc i p k) ≡ some l
        → (lease (s.pc k) ≡ some l)
          ⊎ ((k ≡ i) × (is_known s.store l ≡ false) × (is_known t l ≡ true))
    moved-lease k l e = elim (Bool-cases (k == i)) [
      | inr other ↦ inl (rw other at e)
      | inl own ↦
          let same = ==-true k i own in
          elim (lease-move etcd mv (rw own at e)) [
            | inl old ↦ inl (rw same old)
            | inr (fresh, new) ↦ inr (same, fresh, new)
          ]
    ]

    moved-known : (k l : ℕ) → lease (update etcd s.pc i p k) ≡ some l → is_known t l ≡ true
    moved-known k l e = elim (moved-lease k l e) [
      | inl old ↦ (Keeps-move etcd l mv (inv.known k l old)).known
      | inr (_, _, new) ↦ new
    ]

    moved_unique :
        (j k l : ℕ)
        → lease (update etcd s.pc i p j) ≡ some l
        → lease (update etcd s.pc i p k) ≡ some l
        → j ≡ k
    moved_unique j k l e f = elim (moved-lease j l e) [
      | inl old ↦ elim (moved-lease k l f) [
        | inl old' ↦ inv.unique j k l old old'
        | inr (_, fresh, _) ↦ cc (inv.known j l old)
      ]
      | inr (own, fresh, _) ↦ elim (moved-lease k l f) [
        | inl old' ↦ cc (inv.known k l old')
        | inr (own', _, _) ↦ own ∙ sym own'
      ]
    ]

    moved-holds :
        (k l : ℕ) → leads (update etcd s.pc i p k) ≡ some l → is_live t l ≡ true → holder t ≡ some l
    moved-holds k l e a = elim (Bool-cases (k == i)) [
      | inr other ↦
          let before : leads (s.pc k) ≡ some l = rw other at e in
          let keeps = Keeps-move etcd l mv (inv.known k l (leads-lease _ l before)) in
          keeps.held a (inv.holds k l before (keeps.live a))
      | inl own ↦ elim (leads-move etcd mv (rw own at e)) [
        | inl put ↦ put
        | inr (before, same) ↦ rw same (inv.holds i l before (rw same at a))
      ]
    ]

  Inv-Step : {s t : System etcd} → Step etcd s t → Inv s → Inv t
  Inv-Step {s} (pick i mv) inv = record {
    known = moved-known s i mv inv;
    unique = moved_unique s i mv inv;
    holds = moved-holds s i mv inv;
  }
  Inv-Step {s} (expire {t} {l = n} d) inv =
      let keeps = λ (i l : ℕ) (e : lease (s.pc i) ≡ some l).
        Keeps-ended etcd s.store t n l d (inv.known i l e) in
      record {
        known = λ i l e. (keeps i l e).known;
        unique = inv.unique;
        holds = λ i l e a.
            let k = keeps i l (leads-lease (s.pc i) l e) in k.held a (inv.holds i l e (k.live a));
      }

  Inv-Reach : {s : System etcd} → Reach etcd s → Inv s
  Inv-Reach (start s) = record {
    known = λ i l e. cc;
    unique = λ i j l e f. cc;
    holds = λ i l e a. cc;
  }
  Inv-Reach (later r st) = Inv-Step st (Inv-Reach r)

  -- In every state that any interleaving of the checkers' calls, errors and expiries reaches: a
  -- checker that has won, and whose lease is alive, is the one under whose lease the leader's key
  -- stands; so two such checkers are one. (A checker whose lease has expired may run until it
  -- hears of it.)
  pub one_leader :
      {s : System etcd} (i j l m : ℕ)
      → Reach etcd s
      → leads (s.pc i) ≡ some l
      → is_live s.store l ≡ true
      → leads (s.pc j) ≡ some m
      → is_live s.store m ≡ true
      → (i ≡ j) × (holder s.store ≡ some l)
  one_leader {s} i j l m r e a f b =
      let inv = Inv-Reach r in
      let held = inv.holds i l e a in
      let held' = inv.holds j m f b in
      let same : m ≡ l = cc in
      (inv.unique i j l (leads-lease (s.pc i) l e) (rw same at (leads-lease (s.pc j) m f)), held)
