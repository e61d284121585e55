-- ===== src/Audit/Detail.antt =====
-- What an auditor reads off a rejection.
use web3_blitz.Base.{◌≡◌, refl, false, some, List, [], ◌∷◌, ◌++◌, ◌==◌, All, if◌then◌else◌}
use web3_blitz.Codegen.{Text, text}
use web3_blitz.Audit.{Event, log, event, withdraw_rejected}

-- The text up to the first space, and from it on.
unfoldable split_space : Text → Text × Text
split_space [] = ([], [])
split_space (c ∷ s) = let (a, b) = split_space s in if c == b' ' then ([], c ∷ s) else (c ∷ a, b)

abbrev drop_chars : Text → Text → Text
drop_chars [] s = s
drop_chars (p ∷ ps) [] = []
drop_chars (p ∷ ps) (c ∷ s) = drop_chars ps s

-- The administrator and the reason.
abbrev read_detail : Text → Text × Text
read_detail s =
    let (admin, rest) = split_space (drop_chars (text "admin:") s) in
    (admin, drop_chars (text " reason:") rest)

split_lem :
    (a s : Text) → All (λ c. (c == b' ') ≡ false) a → split_space (a ++ b' ' ∷ s) ≡ (a, b' ' ∷ s)
unfolding split_space
split_lem [] s h = refl
split_lem (c ∷ a) s h = rw h.0 (rw (split_lem a s h.1) refl)

-- With a log that is open, a rejection is one more event, the last one; its detail gives back the
-- administrator and the reason, whatever the reason contains, for an administrator's id without
-- spaces.
withdraw_rejected_lem :
    (now user chain amount admin reason : Text) (es : List Event)
    → All (λ c. (c == b' ') ≡ false) admin
    → (e : Event) × (withdraw_rejected now user chain amount admin reason (some es)
        ≡ some (es ++ e ∷ []))
      × (read_detail e.detail ≡ (admin, reason))
      × (e.user_id ≡ user)
      × (e.timestamp ≡ now)
unfolding withdraw_rejected log
withdraw_rejected_lem now user chain amount admin reason es h = (
  record (event (text "withdraw.rejected") user chain amount (text "rejected")) {
    timestamp = now;
    detail = text "admin:" ++ (admin ++ (text " reason:" ++ reason));
  },
  refl,
  rw (split_lem admin (text "reason:" ++ reason) h) refl,
  refl,
  refl,
)
