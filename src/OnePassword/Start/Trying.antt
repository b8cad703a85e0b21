-- ===== src/OnePassword/Start/Trying.antt =====
-- backend/onepassword/onepassword.go: what backoff's documentation promises of a Retry with no bound on the
-- tries, what a connection stands for, and how one try ends.
use ts1p.Prelude.{
  ◌≡◌, refl, subst, ap, inl, inr, Bool, true, false, ◌||◌, Bool-cases, none, some, List, [], Bytes,
  bytes_eq,
}
use ts1p.Errors.{Error, Sentinel, is, Result, ok, err}
use ts1p.Exec.{Exec, continue}
use ts1p.OnePassword.Titles.{Overview}
use ts1p.OnePassword.Faults.{Spelling}
use ts1p.OnePassword.Client.{Attempt, done, permanent, transient}
use ts1p.OnePassword.Start.{
  Sdk, Patience, vault_called, relabel, probe, connect_vault, is_misconfigured, tried, try_connect,
  unconnected,
}

-- An error of the context.
abbrev pub is_context : Error → Bool
is_context e = is e Sentinel.canceled || is e Sentinel.deadline_exceeded

module _ {T A : Type 0} (op : T → Attempt A × T) where
  -- A success or a permanent error ends the tries. After another error the next try follows, or the time
  -- is up, or the context is done.
  pub data Ends : T → Result A × T → Type 0 where
    success : (s : T) (v : A) → (op s).0 ≡ done v → Ends s (ok v, (op s).1)
    refusal : (s : T) (e : Error) → (op s).0 ≡ permanent e → Ends s (err e, (op s).1)
    late : (s : T) (e : Error) → (op s).0 ≡ transient e → Ends s (err e, (op s).1)
    left :
        (s : T) (e f : Error)
        → (op s).0 ≡ transient e
        → is_context f ≡ true
        → Ends s (err f, (op s).1)
    next :
        (s : T) (e : Error) (x : Result A × T) → (op s).0 ≡ transient e → Ends (op s).1 x → Ends s x

pub record IsPatience {T : Type 0} (patience : Patience T) : Type 1 where
  pub ends : (A : Type 0) (op : T → Attempt A × T) (s : T) → Ends op s (patience.retry A op s)

module _ {S C : Type 0} (sdk : Sdk S C) (token vault_name : Bytes) (spell : Spelling) where
  -- What a connection stands for: the token was taken, the ID is that of the first vault of the title,
  -- and the items in it could be listed.
  pub record Bound (client : C) (id : Bytes) : Type 0 where
    pub made : S
    pub taken : (sdk.new_client token made).0 ≡ ok client
    pub vaults : List Overview
    pub asked : S
    pub told : (sdk.vaults client asked).0 ≡ ok vaults
    pub called : vault_called vault_name vaults ≡ id
    pub there : bytes_eq id [] ≡ false
    pub items : List Overview
    pub probed : S
    pub listed : (sdk.list_items client id probed).0 ≡ ok items

  -- Tries from one state of the outside to another that have failed, none of them for good.
  pub data Tries : S → S → Type 0 where
    here : (s : S) → Tries s s
    more :
        (s t u : S) (e : Error)
        → connect_vault sdk token vault_name s ≡ (err e, t)
        → is_misconfigured spell e ≡ false
        → Tries t u
        → Tries s u

continue-ok :
    {S A B : Type 0} (f : A → Exec S B) (x : Result A × S) (b : B) (t : S)
    → continue f x ≡ (ok b, t)
    → (a : A) × (s : S) × (x ≡ (ok a, s)) × (f a s ≡ (ok b, t))
continue-ok f (ok a, s) b t e = (a, s, refl, e)
continue-ok f (err g, s) b t e = absurd (cc)

relabel-ok :
    {S A : Type 0} (label : Bytes) (x : Result A × S) (a : A) (t : S)
    → relabel label x ≡ (ok a, t)
    → x ≡ (ok a, t)
unfolding relabel
relabel-ok label (ok b, s) a t e = e
relabel-ok label (err g, s) a t e = absurd (cc)

module _ {S C : Type 0} (sdk : Sdk S C) (token vault_name : Bytes) (spell : Spelling) where
  probe-ok :
      (client : C) (id : Bytes) (s : S) (p : C × Bytes) (t : S)
      → probe sdk token vault_name client id s ≡ (ok p, t)
      → (bytes_eq id [] ≡ false)
        × (os : List Overview) × ((sdk.list_items client id s).0 ≡ ok os)
        × ((client, id) ≡ p)
  unfolding probe
  probe-ok client id s p t e = elim (Bool-cases (bytes_eq id [])) [
    | inl q ↦ absurd (cc (e, q))
    | inr q ↦
        let (os, u, a, b) = continue-ok _ _ p t (rw (q) at e) in
        (q, os, ap (λ (x : Result (List Overview) × S). x.0) (relabel-ok _ _ os u a), cc)
  ]

  pub connect_vault-Bound :
      (s : S) (client : C) (id : Bytes) (t : S)
      → connect_vault sdk token vault_name s ≡ (ok (client, id), t)
      → Bound sdk token vault_name spell client id
  unfolding connect_vault
  connect_vault-Bound s client id t e =
      let (c, u, p, h) = continue-ok _ _ (client, id) t e in
      let (vs, v, q, g) = continue-ok _ _ (client, id) t h in
      let (there, os, listed, same) = probe-ok c (vault_called vault_name vs) v (client, id) t g in
      subst (λ (x : C × Bytes). Bound sdk token vault_name spell x.0 x.1) same
        (record {
          made = s;
          taken = ap (λ (x : Result C × S). x.0) (relabel-ok _ _ c u p);
          vaults = vs;
          asked = u;
          told = ap (λ (x : Result (List Overview) × S). x.0) (relabel-ok _ _ vs v q);
          called = refl;
          there = there;
          items = os;
          probed = v;
          listed = listed;
        })

  -- One try, from a state with no connection.
  pub data Tried (s : S) : Type 0 where
    good :
        (client : C) (id : Bytes) (t : S)
        → connect_vault sdk token vault_name s ≡ (ok (client, id), t)
        → try_connect sdk token vault_name spell (unconnected s)
          ≡ (done tt, record { sdk = t; conn = some client; vault_id = id; recycle_at = none })
        → Tried s
    hopeless :
        (e : Error) (t : S)
        → connect_vault sdk token vault_name s ≡ (err e, t)
        → is_misconfigured spell e ≡ true
        → try_connect sdk token vault_name spell (unconnected s) ≡ (permanent e, unconnected t)
        → Tried s
    failed :
        (e : Error) (t : S)
        → connect_vault sdk token vault_name s ≡ (err e, t)
        → is_misconfigured spell e ≡ false
        → try_connect sdk token vault_name spell (unconnected s) ≡ (transient e, unconnected t)
        → Tried s

  pub try_connect-Tried :
      (s : S) (x : Result (C × Bytes) × S) → connect_vault sdk token vault_name s ≡ x → Tried s
  unfolding try_connect
  try_connect-Tried s (ok (client, id), t) e = good client id t e (rw (tried, e) refl)
  try_connect-Tried s (err g, t) e = elim (Bool-cases (is_misconfigured spell g)) [
    | inl p ↦ hopeless g t e p (rw (tried, e, p) refl)
    | inr p ↦ failed g t e p (rw (tried, e, p) refl)
  ]
