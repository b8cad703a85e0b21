-- ===== src/OnePassword/Lawful.antt =====
-- backend/onepassword/onepassword.go over a dedicated vault that nothing else writes to: when a state
-- is right.
pub mod Silence
pub mod Finding
pub mod Loading
pub mod Listing
pub mod Placing
pub mod Rendering
pub mod Writing
pub mod Making
pub mod Updating
pub mod Saving
pub mod Removing
pub mod Contract
use ts1p.Prelude.{
  ◌≡◌, refl, sym, subst, ap, ◌∙◌, ◌⊎◌, inl, inr, Bool, true, false, Bool-cases, Option, none, some,
  List, [], if◌then◌else◌, Bytes, bytes_eq, bytes_eq_iff, bytes_eq_eq, Map, lookup, put, delete,
  lookup-put, lookup-delete, arith,
}
use ts1p.Errors.{ok}
use ts1p.Backend.{Record, Context}
use ts1p.OnePassword.{Items, OnePassword}
use ts1p.OnePassword.Titles.{Overview, remember_ids}
use ts1p.OnePassword.Fields.{Text, Item, record_from_item}
use ts1p.OnePassword.Vault.{IsVault, IsListing}
use ts1p.OnePassword.Listings.{id_of, remember_ids-at}

module _ {V : Type 0} (items : Items V) (json : Text) (law : IsVault items) where
  open law use {Plain, at, used}

  -- The ID is that of the item of this title, if there is one, and of no other item, now or later.
  pub record Owned (v : V) (k id : Bytes) : Type 0 where
    pub known : used v id ≡ true
    pub its : (i : Item) → at v k ≡ some i → i.id ≡ id
    pub only : (l : Bytes) (i : Item) → at v l ≡ some i → i.id ≡ id → l ≡ k

  -- Every item is a secret's, and what the memo has for a name is its ID or that of an item that is gone.
  pub record IsRight (s : OnePassword V) : Type 0 where
    pub plain : Plain s.vault
    pub readable :
        (k : Bytes) (i : Item)
        → at s.vault k ≡ some i
        → (r : Record) × (record_from_item json k i ≡ ok r)
    pub named : at s.vault [] ≡ none
    pub memo : (k id : Bytes) → lookup k s.ids ≡ some id → Owned s.vault k id

  pub Owned-later :
      (v w : V) (k id : Bytes)
      → ((l : Bytes) → at w l ≡ at v l)
      → (used v id ≡ true → used w id ≡ true)
      → Owned v k id
      → Owned w k id
  Owned-later v w k id same old h = record {
    known = old h.known;
    its = λ i e. h.its i (sym (same k) ∙ e);
    only = λ l i e p. h.only l i (sym (same l) ∙ e) p;
  }

  -- A request that changes no item, with a memo that is right.
  pub IsRight-still :
      (s : OnePassword V) (w : V) (ids : Map Bytes Bytes)
      → IsRight s
      → Plain w
      → ((k : Bytes) → at w k ≡ at s.vault k)
      → ((k id : Bytes) → lookup k ids ≡ some id → Owned w k id)
      → IsRight (record { vault = w; ids = ids })
  IsRight-still s w ids h p same memo = record {
    plain = p;
    readable = λ k i e. h.readable k i (sym (same k) ∙ e);
    named = same [] ∙ h.named;
    memo = memo;
  }

  pub IsRight-later :
      (s : OnePassword V) (w : V)
      → IsRight s
      → Plain w
      → ((k : Bytes) → at w k ≡ at s.vault k)
      → ((id : Bytes) → used s.vault id ≡ true → used w id ≡ true)
      → IsRight (record s { vault = w })
  IsRight-later s w h p same old =
      IsRight-still s w s.ids h p same
        (λ k id e. Owned-later s.vault w k id same (old id) (h.memo k id e))

  pub IsRight-forget :
      (s : OnePassword V) (name : Bytes)
      → IsRight s
      → IsRight (record s { ids = delete name s.ids })
  IsRight-forget s name h =
      IsRight-still s s.vault (delete name s.ids) h h.plain (λ k. refl)
        (λ k id e. h.memo k id (ground (arith, lookup-delete name k s.ids)))

  -- What an item's ID is to its title.
  pub at-Owned : (v : V) (k : Bytes) (i : Item) → Plain v → at v k ≡ some i → Owned v k i.id
  at-Owned v k i p e = record {
    known = law.used_of v k i p e;
    its = λ j q. cc;
    only = λ l j q r. law.id_of v l k j i p q e r;
  }

  -- The memo after a listing.
  pub listed-Owned :
      (v : V) (os : List Overview)
      → Plain v
      → IsListing os (at v)
      → (k id : Bytes) → lookup k (remember_ids os) ≡ some id
      → Owned v k id
  listed-Owned v os p l k id e = by_item (at v k) refl (sym (remember_ids-at k os (at v) l) ∙ e)
    where
      by_item : (o : Option Item) → at v k ≡ o → id_of (at v k) ≡ some id → Owned v k id
      by_item none q r = absurd (cc)
      by_item (some i) q r =
          let same : i.id ≡ id = cc in subst (Owned v k) same (at-Owned v k i p q)
