-- ===== src/OnePassword/Start/Opening.antt =====
-- backend/onepassword/onepassword.go: how New ends.
use ts1p.Prelude.{
  ℕ, ◌+◌, ◌-◌, ◌/◌, ◌%◌, ◌≤◌, ◌<◌, ◌≡◌, refl, sym, subst, ap, ◌∙◌, ◌⊎◌, inl, inr, true, false,
  Bool-cases, Option, none, some, [], eqb, Bytes, bytes_eq, arith,
}
use native.Mathlib.Nat.{mod-lt}
use ts1p.Errors.{Error, Sentinel, Result, ok, err, fail}
use ts1p.OnePassword.Faults.{Spelling}
use ts1p.OnePassword.Client.{Attempt}
use ts1p.OnePassword.Start.{
  Sdk, Fresh, Patience, Birth, connect_vault, is_misconfigured, try_connect, aged, start, new,
  unconnected,
}
use ts1p.OnePassword.Start.Trying.{
  is_context, Ends, IsPatience, Bound, Tries, connect_vault-Bound, good, hopeless, failed,
  try_connect-Tried,
}

module _ {S C : Type 0} (sdk : Sdk S C) (token vault_name : Bytes) (spell : Spelling) where
  -- The age at which the process is recycled: none, or within a tenth below the limit.
  pub Recycling : ℕ → Birth → Option ℕ → Type 0
  Recycling max_age birth none = max_age ≡ 0
  Recycling max_age birth (some at) =
      (0 < max_age) × (birth.now + max_age ≤ at + max_age / 10) × (at ≤ birth.now + max_age)

  -- How New ends: `s` is the outside before it.
  pub data Opened (max_age : ℕ) (birth : Birth) (s : S)
      : Result (Unit {0}) × Fresh S C → Type 0 where
    no_token :
        bytes_eq token [] ≡ true → Opened max_age birth s (fail Sentinel.empty_token, unconnected s)
    connected :
        (u : S) (b : Fresh S C) (client : C)
        → Tries sdk token vault_name spell s u
        → connect_vault sdk token vault_name u ≡ (ok (client, b.vault_id), b.sdk)
        → b.conn ≡ some client
        → Bound sdk token vault_name spell client b.vault_id
        → Recycling max_age birth b.recycle_at
        → Opened max_age birth s (ok tt, b)
    misconfigured :
        (u t : S) (e : Error)
        → Tries sdk token vault_name spell s u
        → connect_vault sdk token vault_name u ≡ (err e, t)
        → is_misconfigured spell e ≡ true
        → Opened max_age birth s (err e, unconnected t)
    gave_up :
        (u t : S) (e f : Error)
        → Tries sdk token vault_name spell s u
        → connect_vault sdk token vault_name u ≡ (err e, t)
        → is_misconfigured spell e ≡ false
        → (f ≡ e) ⊎ (is_context f ≡ true)
        → Opened max_age birth s (err f, unconnected t)

  earlier :
      (max_age : ℕ) (birth : Birth) (s t : S) (e : Error) (x : Result (Unit {0}) × Fresh S C)
      → bytes_eq token [] ≡ false
      → connect_vault sdk token vault_name s ≡ (err e, t)
      → is_misconfigured spell e ≡ false
      → Opened max_age birth t x
      → Opened max_age birth s x
  earlier max_age birth s t e _ n p q (Opened.no_token h) = absurd (cc)
  earlier max_age birth s t e _ n p q (Opened.connected u b c tries a d bound r) =
      Opened.connected u b c (Tries.more s t u e p q tries) a d bound r
  earlier max_age birth s t e _ n p q (Opened.misconfigured u w g tries a m) =
      Opened.misconfigured u w g (Tries.more s t u e p q tries) a m
  earlier max_age birth s t e _ n p q (Opened.gave_up u w g f tries a m c) =
      Opened.gave_up u w g f (Tries.more s t u e p q tries) a m c

  recycled :
      (max_age : ℕ) (birth : Birth)
      → eqb max_age 0 ≡ false
      → (0 < max_age)
        × (birth.now + max_age
            ≤ birth.now + (max_age - birth.draw % (max_age / 10 + 1)) + max_age / 10)
        × (birth.now + (max_age - birth.draw % (max_age / 10 + 1)) ≤ birth.now + max_age)
  recycled max_age birth p =
      let draw_lt : birth.draw % (max_age / 10 + 1) < max_age / 10 + 1 =
        mod-lt birth.draw (omega arith) in
      (ground arith, omega arith, omega arith)

  established :
      (max_age : ℕ) (birth : Birth) (s : S) (client : C) (id : Bytes) (t : S)
      → connect_vault sdk token vault_name s ≡ (ok (client, id), t)
      → Opened max_age birth s (
          aged max_age birth
            (ok tt, record { sdk = t; conn = some client; vault_id = id; recycle_at = none }))
  unfolding aged Recycling
  established max_age birth s client id t e = elim (Bool-cases (eqb max_age 0)) [
    | inl p ↦ rw p (
        Opened.connected s _ client (Tries.here s) e refl
          (connect_vault-Bound sdk token vault_name spell s client id t e) (ground arith))
    | inr p ↦ rw p (
        Opened.connected s _ client (Tries.here s) e refl
          (connect_vault-Bound sdk token vault_name spell s client id t e)
          (recycled max_age birth p))
  ]

  of_unconnected :
      (b : Fresh S C) (s : S) (y : Attempt (Unit {0}) × Fresh S C)
      → b ≡ unconnected s
      → try_connect sdk token vault_name spell (unconnected s) ≡ y
      → try_connect sdk token vault_name spell b ≡ y
  of_unconnected b s y e r = ap (try_connect sdk token vault_name spell) e ∙ r

  Ends-Opened :
      (max_age : ℕ) (birth : Birth) (s : S) (b : Fresh S C) (x : Result (Unit {0}) × Fresh S C)
      → bytes_eq token [] ≡ false
      → b ≡ unconnected s
      → Ends (try_connect sdk token vault_name spell) b x
      → Opened max_age birth s (aged max_age birth x)
  unfolding aged
  Ends-Opened max_age birth s b _ n e (Ends.success _ v p) =
      elim (try_connect-Tried sdk token vault_name spell s _ refl) [
        | good client id t q r ↦
            subst (λ y. Opened max_age birth s (aged max_age birth (ok tt, y)))
              (sym (ap (λ (y : Attempt (Unit {0}) × Fresh S C). y.1) (of_unconnected b s _ e r)))
              (established max_age birth s client id t q)
        | hopeless g t q m r ↦ absurd (cc (of_unconnected b s _ e r, p))
        | failed g t q m r ↦ absurd (cc (of_unconnected b s _ e r, p))
      ]
  Ends-Opened max_age birth s b _ n e (Ends.refusal _ f p) =
      elim (try_connect-Tried sdk token vault_name spell s _ refl) [
        | good client id t q r ↦ absurd (cc (of_unconnected b s _ e r, p))
        | hopeless g t q m r ↦
            subst (Opened max_age birth s) (cc (of_unconnected b s _ e r, p))
              (Opened.misconfigured s t g (Tries.here s) q m)
        | failed g t q m r ↦ absurd (cc (of_unconnected b s _ e r, p))
      ]
  Ends-Opened max_age birth s b _ n e (Ends.late _ f p) =
      elim (try_connect-Tried sdk token vault_name spell s _ refl) [
        | good client id t q r ↦ absurd (cc (of_unconnected b s _ e r, p))
        | hopeless g t q m r ↦ absurd (cc (of_unconnected b s _ e r, p))
        | failed g t q m r ↦
            subst (Opened max_age birth s) (cc (of_unconnected b s _ e r, p))
              (Opened.gave_up s t g g (Tries.here s) q m (inl refl))
      ]
  Ends-Opened max_age birth s b _ n e (Ends.left _ f c p k) =
      elim (try_connect-Tried sdk token vault_name spell s _ refl) [
        | good client id t q r ↦ absurd (cc (of_unconnected b s _ e r, p))
        | hopeless g t q m r ↦ absurd (cc (of_unconnected b s _ e r, p))
        | failed g t q m r ↦
            subst (Opened max_age birth s) (cc (of_unconnected b s _ e r))
              (Opened.gave_up s t g c (Tries.here s) q m (inr k))
      ]
  Ends-Opened max_age birth s b x n e (Ends.next _ f _ p rest) =
      elim (try_connect-Tried sdk token vault_name spell s _ refl) [
        | good client id t q r ↦ absurd (cc (of_unconnected b s _ e r, p))
        | hopeless g t q m r ↦ absurd (cc (of_unconnected b s _ e r, p))
        | failed g t q m r ↦ earlier max_age birth s t g _ n q m (
            Ends-Opened max_age birth t _ x n
              (ap (λ (y : Attempt (Unit {0}) × Fresh S C). y.1) (of_unconnected b s _ e r)) rest)
      ]

  -- New ends in one of four ways. With no token nothing is asked. It has a connection, after tries that
  -- failed and none of which was hopeless: bound to the first vault of the title, whose items it could
  -- list, and to be recycled within a tenth below the maximal age, if that is positive. A vault that is
  -- not there or a refused token ends it at once. Or another error does, its own or the context's, when
  -- the backoff gives up.
  pub new-Opened :
      (patience : Patience (Fresh S C)) (max_age : ℕ) (birth : Birth) (s : S)
      → IsPatience patience
      → Opened max_age birth s (new sdk token vault_name spell patience max_age birth s)
  unfolding new start
  new-Opened patience max_age birth s law = elim (Bool-cases (bytes_eq token [])) [
    | inl e ↦ rw e (Opened.no_token e)
    | inr e ↦ rw e (
        Ends-Opened max_age birth s (unconnected s) _ e refl
          (law.ends (Unit {0}) _ (unconnected s)))
  ]
