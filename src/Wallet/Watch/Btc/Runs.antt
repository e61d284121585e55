-- ===== src/Wallet/Watch/Btc/Runs.antt =====
-- The BTC watcher over many rounds of its ticker, with a consumer at the other end of the channel.
use mathlib.Core.List.{append-nil, append_assoc}
use web3_blitz.Base.{
  ℕ, zero, suc, ◌+◌, ◌-◌, ◌≤◌, ◌≡◌, refl, ◌∙◌, sym, ap, Option, none, some, List, [], ◌∷◌, ◌++◌,
  ltb, length, arith, Bool-cases, inl, inr,
}
use web3_blitz.Wallet.Consume.{DepositRecord}
use web3_blitz.Wallet.Registry.{Registry}
use web3_blitz.Wallet.Watch.Queue.{queue_size, take_all, length-prefix}
use web3_blitz.Wallet.Watch.Btc.{BtcNode, BtcWatcher, scan_new_blocks}
use web3_blitz.Wallet.Watch.Btc.Payments.{block_payments, payments, scan_new_blocks_lem}

-- A tick of `Start`, with the height that the node gives, or a receive of the consumer.
pub data Round : Type 0 where
  tick : Option ℕ → Round
  receive : Round

abbrev take_first :
    BtcWatcher → List DepositRecord → List DepositRecord → BtcWatcher × List DepositRecord
take_first w out [] = (w, out)
take_first w out (d ∷ ds) = (record w { deposits = ds }, out ++ d ∷ [])

module _ (n : BtcNode) (r : Registry) where
  abbrev pub at : Option ℕ → BtcNode
  at head = record n { blocks = head }

  -- The watcher, and what the consumer has taken so far.
  abbrev round : Round → BtcWatcher × List DepositRecord → BtcWatcher × List DepositRecord
  round (tick head) (w, out) = (scan_new_blocks (at head) r w, out)
  round receive (w, out) = take_first w out w.deposits

  pub run_rounds : List Round → BtcWatcher × List DepositRecord → BtcWatcher × List DepositRecord
  run_rounds [] s = s
  run_rounds (t ∷ ts) s = run_rounds ts (round t s)

  -- The channel has room for what a tick finds.
  abbrev Fits : Round → BtcWatcher → Type 0
  Fits (tick (some current)) w =
      length (w.deposits ++ payments n r (w.last_height + 1) (current - w.last_height)) ≤ queue_size
  Fits (tick none) w = Unit
  Fits receive w = Unit

  abbrev pub AllFit : List Round → BtcWatcher × List DepositRecord → Type 0
  AllFit [] s = Unit
  AllFit (t ∷ ts) s = Fits t s.0 × AllFit ts (round t s)

  payments-at :
      (head : Option ℕ) (h count : ℕ) → payments (at head) r h count ≡ payments n r h count
  payments-at head h zero = refl
  payments-at head h (suc count) =
      ap (λ (l : List DepositRecord). block_payments n r h ++ l) (payments-at head (h + 1) count)

  payments-add : (h a b : ℕ) → payments n r h a ++ payments n r (h + a) b ≡ payments n r h (a + b)
  payments-add h zero b =
      let here : h + 0 ≡ h = omega arith in
      let total : b ≡ 0 + b = omega arith in
      ap (λ (k : ℕ). payments n r k b) here ∙ ap (payments n r h) total
  payments-add h (suc a) b =
      let next : h + suc a ≡ h + 1 + a = omega arith in
      let total : suc (a + b) ≡ suc a + b = omega arith in
      append_assoc (block_payments n r h) (payments n r (h + 1) a) (payments n r (h + suc a) b)
      ∙ ap (λ (k : ℕ). block_payments n r h ++ (payments n r (h + 1) a ++ payments n r k b)) next
      ∙ ap (λ (l : List DepositRecord). block_payments n r h ++ l) (payments-add (h + 1) a b)
      ∙ ap (payments n r h) total

  -- From `s` to `t`, what was taken and what waits has grown by the payments of the heights between.
  abbrev pub Delivers : BtcWatcher × List DepositRecord → BtcWatcher × List DepositRecord → Type 0
  Delivers (w, out) (w', out') =
      (w.last_height ≤ w'.last_height)
      × (out' ++ w'.deposits
          ≡ (out ++ w.deposits)
            ++ payments n r (w.last_height + 1) (w'.last_height - w.last_height))

  Delivers-same :
      (s t : BtcWatcher × List DepositRecord)
      → t.0.last_height ≡ s.0.last_height
      → t.1 ++ t.0.deposits ≡ s.1 ++ s.0.deposits
      → Delivers s t
  Delivers-same (w, out) (w', out') e f =
      let none_new : w'.last_height - w.last_height ≡ 0 = omega arith in
      (omega arith, f ∙ rw none_new (sym (append-nil (out ++ w.deposits))))

  tick-Delivers :
      (head : Option ℕ) (w : BtcWatcher) (out : List DepositRecord)
      → Fits (tick head) w
      → Delivers (w, out) (round (tick head) (w, out))
  unfolding scan_new_blocks
  tick-Delivers none w out fits = Delivers-same (w, out) (w, out) refl refl
  tick-Delivers (some current) w out fits = elim (Bool-cases (ltb w.last_height current)) [
    | inr e ↦ rw e (Delivers-same (w, out) (w, out) refl refl)
    | inl e ↦
        let new = payments n r (w.last_height + 1) (current - w.last_height) in
        let (height, found) =
          scan_new_blocks_lem (at (some current)) r w current
            (ground (arith, length-prefix w.deposits new, fits)) refl (ground arith) in
        let kept =
          rw (payments-at (some current) (w.last_height + 1) (current - w.last_height)) at found in
        (
          rw height (ground arith),
          rw (kept ∙ take_all queue_size (w.deposits ++ new) fits)
              (rw height (sym (append_assoc out w.deposits new))),
        )
  ]

  take_first-Delivers :
      (w : BtcWatcher) (out q : List DepositRecord)
      → w.deposits ≡ q
      → Delivers (w, out) (take_first w out q)
  take_first-Delivers w out [] e = Delivers-same (w, out) (w, out) refl refl
  take_first-Delivers w out (d ∷ ds) e =
      Delivers-same (w, out) (record w { deposits = ds }, out ++ d ∷ []) refl
        (append_assoc out (d ∷ []) ds ∙ ap (λ (q : List DepositRecord). out ++ q) (sym e))

  round-Delivers :
      (t : Round) (s : BtcWatcher × List DepositRecord) → Fits t s.0 → Delivers s (round t s)
  round-Delivers (tick head) (w, out) fits = tick-Delivers head w out fits
  round-Delivers receive (w, out) fits = take_first-Delivers w out w.deposits refl

  Delivers-then :
      (s t u : BtcWatcher × List DepositRecord) → Delivers s t → Delivers t u → Delivers s u
  Delivers-then (w, out) (w', out') (w'', out'') (up, e) (up', e') =
      let a = w'.last_height - w.last_height in
      let b = w''.last_height - w'.last_height in
      let first = payments n r (w.last_height + 1) a in
      let second = payments n r (w'.last_height + 1) b in
      let starts : w.last_height + 1 + a ≡ w'.last_height + 1 = omega arith in
      let whole : a + b ≡ w''.last_height - w.last_height = omega arith in
      let joined : first ++ second
          ≡ payments n r (w.last_height + 1) (w''.last_height - w.last_height) =
        ap (λ (k : ℕ). first ++ payments n r k b) (sym starts)
        ∙ payments-add (w.last_height + 1) a b
        ∙ ap (payments n r (w.last_height + 1)) whole in
      (
        omega arith,
        e'
            ∙ ap (λ (l : List DepositRecord). l ++ second) e
            ∙ append_assoc (out ++ w.deposits) first second
            ∙ ap (λ (l : List DepositRecord). (out ++ w.deposits) ++ l) joined,
      )

  -- While the registry and the blocks that the node gives stay the same: over any number of ticks,
  -- whatever height the node reports at each and however the consumer's receives fall between them,
  -- when the channel has room at each tick, what the consumer has taken and what still waits are,
  -- in the order of the chain and each once, the payments to registered addresses in the blocks
  -- from the height at the start to the height at the end, and nothing else. A block that the node
  -- does not give counts as one without payments.
  pub run_rounds-Delivers :
      (ts : List Round) (s : BtcWatcher × List DepositRecord)
      → AllFit ts s
      → Delivers s (run_rounds ts s)
  unfolding run_rounds
  run_rounds-Delivers [] s fits = Delivers-same s s refl refl
  run_rounds-Delivers (t ∷ ts) s fits =
      Delivers-then s (round t s) (run_rounds ts (round t s)) (round-Delivers t s fits.0)
        (run_rounds-Delivers ts (round t s) fits.1)
