-- ===== src/Android/Owning.antt =====
-- crates/essenty-android/src/back_handler/platform.rs: which proxies Java calls, against the registrations
-- that the mutexes hold; a proxy that is emptied out of a mutex, and one that is put into it.
use essenty.Common.{
  ℕ, Bool, true, false, ◌&&◌, ◌||◌, not, Option, none, some, if◌then◌else◌, ◌==◌, ==_iff, ==_refl,
  ◌≡◌, refl, sym, ◌∙◌, arith, Bool-cases, inl, inr,
}
use essenty.Android.JavaMain.{Registration}

abbrev pub Slots : Type 0
Slots = ℕ → Option Registration

abbrev pub place : ℕ → Option Registration → Slots → Slots
place id value slots other = if other == id then value else slots other

-- Java calls exactly the proxies that the mutexes hold, each held once.
pub record Owns (slots : Slots) (listens : ℕ → Bool) : Type 0 where
  pub owned :
      (p : ℕ) → listens p ≡ true → (a : ℕ) × (r : Registration) × (slots a ≡ some r) × (r.proxy ≡ p)
  pub live : (a : ℕ) (r : Registration) → slots a ≡ some r → listens r.proxy ≡ true
  pub apart :
      (a b : ℕ) (r t : Registration)
      → slots a ≡ some r
      → slots b ≡ some t
      → r.proxy ≡ t.proxy
      → a ≡ b

pub place-same : (id : ℕ) (v : Option Registration) (slots : Slots) → place id v slots id ≡ v
place-same id v slots = rw (==_refl id) refl

some-eq : {A : Type 0} (a b : A) → some a ≡ some b → a ≡ b
some-eq a b h = cc

module _ (slots : Slots) (listens after : ℕ → Bool) (owns : Owns slots listens) where
  pub quiet-Owns : ((q : ℕ) → after q ≡ listens q) → Owns slots after
  quiet-Owns same = record {
    owned = λ p h. owns.owned p (sym (same p) ∙ h);
    live = λ a r e. same r.proxy ∙ owns.live a r e;
    apart = owns.apart;
  }

  module _ (id : ℕ) (r : Registration) where
    pub empty-Owns :
        slots id ≡ some r
        → ((q : ℕ) → after q ≡ (not (q == r.proxy) && listens q))
        → Owns (place id none slots) after
    empty-Owns held gone = record {
      owned = λ p h. keep p h (owns.owned p (ground (arith, gone p)));
      live = λ a t e. ground (arith, gone t.proxy, owns.live a t, owns.apart a id t r);
      apart = λ a b t u e f. ground (arith, owns.apart a b t u);
    }
      where
        keep :
            (p : ℕ)
            → after p ≡ true
            → ((a : ℕ) × (t : Registration) × (slots a ≡ some t) × (t.proxy ≡ p))
            → (a : ℕ) × (t : Registration) × (place id none slots a ≡ some t) × (t.proxy ≡ p)
        keep p h (a, t, e, q) = (a, t, ground (arith, gone p), q)

    pub fill-Owns :
        slots id ≡ none
        → listens r.proxy ≡ false
        → ((q : ℕ) → after q ≡ (q == r.proxy || listens q))
        → Owns (place id (some r) slots) after
    fill-Owns free fresh more = record {
      owned = λ p h. elim (Bool-cases (p == r.proxy)) [
        | inl new ↦ (id, r, place-same id (some r) slots, sym ((==_iff p r.proxy).0 new))
        | inr old ↦ keep p (owns.owned p (ground (arith, more p)))
      ];
      live = λ a t e. ground (arith, more t.proxy, owns.live a t);
      apart = λ a b t u e f g. ground (arith, owns.apart a b t u, owns.live a t, owns.live b u);
    }
      where
        keep :
            (p : ℕ)
            → ((a : ℕ) × (t : Registration) × (slots a ≡ some t) × (t.proxy ≡ p))
            → (a : ℕ) × (t : Registration) × (place id (some r) slots a ≡ some t) × (t.proxy ≡ p)
        keep p (a, t, e, q) = (a, t, ground arith, q)
