-- ===== src/Wallet/Election/Moves.antt =====
-- What one move of a checker, or the end of a lease, changes.
use web3_blitz.Base.{ℕ, ◌≡◌, ◌⊎◌, inl, inr, refl, sym, ◌∙◌, true, false, some, arith}
use web3_blitz.Wallet.Election.{
  Etcd, Pc, waiting, granted, elected, leading, leaving, closing, stopped, lease, leads, Move,
  grant, grant_error, win, lose, txn_error, txn_error_put, keep_alive, keep_alive_error, renewed,
  tick, expired, done, revoke, revoke_error, revoke_closing, revoke_closing_error, stop,
}

pub leads-lease : (p : Pc) (l : ℕ) → leads p ≡ some l → lease p ≡ some l
leads-lease (elected m) l e = e
leads-lease (leading m) l e = e
leads-lease waiting l e = cc
leads-lease (granted m) l e = cc
leads-lease (leaving m) l e = cc
leads-lease (closing m) l e = cc
leads-lease stopped l e = cc

module _ (etcd : Etcd) where
  open etcd use {Store, holder, is_live, is_known, Granted, Put, Ended}

  -- What a change of etcd leaves to the leases that were there before.
  pub record Keeps (s t : Store) (m : ℕ) : Type 0 where
    pub known : is_known t m ≡ true
    pub live : is_live t m ≡ true → is_live s m ≡ true
    pub held : is_live t m ≡ true → holder s ≡ some m → holder t ≡ some m

  Keeps-self : (s : Store) (m : ℕ) → is_known s m ≡ true → Keeps s s m
  Keeps-self s m k = record { known = k; live = λ h. h; held = λ h e. e }

  Keeps-granted : (s t : Store) (l m : ℕ) → Granted s l t → is_known s m ≡ true → Keeps s t m
  Keeps-granted s t l m g k = record {
    known = ground (arith, etcd.granted_known s t l m g);
    live = λ h. ground (arith, etcd.granted_live s t l m g, etcd.granted_new s t l g);
    held = λ h e. etcd.granted_holder s t l g ∙ e;
  }

  Keeps-put : (s t : Store) (l m : ℕ) → Put s l t → is_known s m ≡ true → Keeps s t m
  Keeps-put s t l m p k = record {
    known = etcd.put_known s t l m p ∙ k;
    live = λ h. sym (etcd.put_live s t l m p) ∙ h;
    held = λ h e. cc (etcd.put_absent s t l p);
  }

  pub Keeps-ended : (s t : Store) (l m : ℕ) → Ended s l t → is_known s m ≡ true → Keeps s t m
  Keeps-ended s t l m d k = record {
    known = etcd.ended_known s t l m d ∙ k;
    live = λ h. ground (arith, etcd.ended_live s t l m d);
    held = λ h e. etcd.ended_holder s t l m d (λ q. ground (arith, etcd.ended_live s t l m d)) e;
  }

  pub Keeps-move :
      {s t : Store} {p q : Pc} (m : ℕ) → Move etcd s p t q → is_known s m ≡ true → Keeps s t m
  Keeps-move {s} {t} m (grant g) k = Keeps-granted s t _ m g k
  Keeps-move {s} {t} m (win p) k = Keeps-put s t _ m p k
  Keeps-move {s} {t} m (txn_error_put p) k = Keeps-put s t _ m p k
  Keeps-move {s} {t} m (revoke d) k = Keeps-ended s t _ m d k
  Keeps-move {s} {t} m (revoke_closing d) k = Keeps-ended s t _ m d k
  Keeps-move {s} m grant_error k = Keeps-self s m k
  Keeps-move {s} m (lose h) k = Keeps-self s m k
  Keeps-move {s} m txn_error k = Keeps-self s m k
  Keeps-move {s} m keep_alive k = Keeps-self s m k
  Keeps-move {s} m keep_alive_error k = Keeps-self s m k
  Keeps-move {s} m renewed k = Keeps-self s m k
  Keeps-move {s} m tick k = Keeps-self s m k
  Keeps-move {s} m expired k = Keeps-self s m k
  Keeps-move {s} m done k = Keeps-self s m k
  Keeps-move {s} m revoke_error k = Keeps-self s m k
  Keeps-move {s} m revoke_closing_error k = Keeps-self s m k
  Keeps-move {s} m stop k = Keeps-self s m k

  -- A lease is kept from before, or is new.
  abbrev Source : Store → Pc → Store → ℕ → Type 0
  Source s p t l = (lease p ≡ some l) ⊎ ((is_known s l ≡ false) × (is_known t l ≡ true))

  pub lease-move :
      {s t : Store} {p q : Pc} {l : ℕ} → Move etcd s p t q → lease q ≡ some l → Source s p t l
  lease-move {s} {t} {l} (grant {l = n} g) e =
      inr (ground (arith, etcd.granted_new s t n g), ground (arith, etcd.granted_known s t n l g))
  lease-move grant_error e = inl e
  lease-move (win p) e = inl e
  lease-move (lose h) e = inl e
  lease-move txn_error e = inl e
  lease-move (txn_error_put p) e = inl e
  lease-move keep_alive e = inl e
  lease-move keep_alive_error e = inl e
  lease-move renewed e = inl e
  lease-move tick e = inl e
  lease-move expired e = inl e
  lease-move done e = inl e
  lease-move (revoke d) e = inl (cc)
  lease-move revoke_error e = inl (cc)
  lease-move (revoke_closing d) e = inl (cc)
  lease-move revoke_closing_error e = inl (cc)
  lease-move stop e = inl (cc)

  -- A checker that leads after its move has just put the key, or led before with the same etcd.
  pub leads-move :
      {s t : Store} {p q : Pc} {l : ℕ}
      → Move etcd s p t q
      → leads q ≡ some l
      → (holder t ≡ some l) ⊎ ((leads p ≡ some l) × (t ≡ s))
  leads-move {s} {t} {l} (win {l = n} p) e = inl (ground (arith, etcd.put_holder s t n p))
  leads-move keep_alive e = inr (e, refl)
  leads-move renewed e = inr (e, refl)
  leads-move tick e = inr (e, refl)
  leads-move grant_error e = cc
  leads-move (grant g) e = cc
  leads-move (lose h) e = cc
  leads-move txn_error e = cc
  leads-move (txn_error_put p) e = cc
  leads-move keep_alive_error e = cc
  leads-move expired e = cc
  leads-move done e = cc
  leads-move (revoke d) e = cc
  leads-move revoke_error e = cc
  leads-move (revoke_closing d) e = cc
  leads-move revoke_closing_error e = cc
  leads-move stop e = cc
