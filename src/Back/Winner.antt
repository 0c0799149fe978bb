-- ===== src/Back/Winner.antt =====
-- `winner` of crates/essenty-back-handler/src/dispatcher.rs: the enabled entry with the greatest
-- `(priority, id)`.
use Prim.Native.Nat.{Ordering}
use essenty.Common.{
  ℕ, true, false, ◌||◌, ◌≡◌, ◌≢◌, refl, sym, ◌∙◌, Option, none, some, [], ◌∷◌, ◌⊎◌, inl, inr,
  is_some, arith, Bool-cases, All, ap, subst,
}
use mathlib.Core.Option.{some-injective}
use essenty.Common.Ints.{ℤ, pos, negsuc, cmp_ℤ}
use essenty.Common.Order.{ℕ_ord, compare-eq}
use essenty.Common.Map.{Map, get, IsSorted, After, After-IsSorted, get-After}
use essenty.Back.Dispatcher.{
  Scene, Entry, any_enabled, can_handle, winner, best_key, better, id_of, cmp_key,
}

-- `a` is no less than `b`.
abbrev pub Beats : ℤ × ℕ → ℤ × ℕ → Type 0
Beats a b = cmp_key a b ≢ Ordering.lt

pub cmp_ℤ-eq : (a b : ℤ) → cmp_ℤ a b ≡ Ordering.eq → a ≡ b
cmp_ℤ-eq (pos a) (pos b) h = ground arith
cmp_ℤ-eq (pos a) (negsuc b) h = ground arith
cmp_ℤ-eq (negsuc a) (pos b) h = ground arith
cmp_ℤ-eq (negsuc a) (negsuc b) h = ground arith

cmp_ℤ_trans :
    (a b c : ℤ) → cmp_ℤ a b ≢ Ordering.lt → cmp_ℤ b c ≢ Ordering.lt → cmp_ℤ a c ≢ Ordering.lt
cmp_ℤ_trans (pos a) (pos b) (pos c) h k = ground arith
cmp_ℤ_trans (pos a) (pos b) (negsuc c) h k = ground arith
cmp_ℤ_trans (pos a) (negsuc b) (pos c) h k = ground arith
cmp_ℤ_trans (pos a) (negsuc b) (negsuc c) h k = ground arith
cmp_ℤ_trans (negsuc a) (pos b) c h k = ground arith
cmp_ℤ_trans (negsuc a) (negsuc b) (pos c) h k = ground arith
cmp_ℤ_trans (negsuc a) (negsuc b) (negsuc c) h k = ground arith

cmp_ℤ-gt : (a b : ℤ) → cmp_ℤ a b ≡ Ordering.gt → cmp_ℤ b a ≡ Ordering.lt
cmp_ℤ-gt (pos a) (pos b) h = ground arith
cmp_ℤ-gt (pos a) (negsuc b) h = refl
cmp_ℤ-gt (negsuc a) (pos b) h = ground arith
cmp_ℤ-gt (negsuc a) (negsuc b) h = ground arith

cmp_ℤ-lt : (a b : ℤ) → cmp_ℤ a b ≡ Ordering.lt → cmp_ℤ b a ≡ Ordering.gt
cmp_ℤ-lt (pos a) (pos b) h = ground arith
cmp_ℤ-lt (pos a) (negsuc b) h = ground arith
cmp_ℤ-lt (negsuc a) (pos b) h = refl
cmp_ℤ-lt (negsuc a) (negsuc b) h = ground arith

cmp_ℤ_refl : (a : ℤ) → cmp_ℤ a a ≡ Ordering.eq
cmp_ℤ_refl (pos a) = ground arith
cmp_ℤ_refl (negsuc a) = ground arith

Beats-trans : (a b c : ℤ × ℕ) → Beats a b → Beats b c → Beats a c
Beats-trans (p, i) (q, j) (r, k) h l =
    ground (
      arith,
      cmp_ℤ-eq p q,
      cmp_ℤ-eq q r,
      cmp_ℤ-eq p r,
      cmp_ℤ-gt p q,
      cmp_ℤ-gt q r,
      cmp_ℤ_trans p q r,
    )

Beats-refl : (a : ℤ × ℕ) → Beats a a
Beats-refl (p, i) = ground (arith, cmp_ℤ_refl p)

flip-Beats : (a b : ℤ × ℕ) → cmp_key a b ≢ Ordering.gt → Beats b a
flip-Beats (p, i) (q, j) h = ground (arith, cmp_ℤ-eq p q, cmp_ℤ-eq q p, cmp_ℤ-lt q p, cmp_ℤ-lt p q)

Ordering-cases : (o : Ordering) → (o ≡ Ordering.gt) ⊎ (o ≢ Ordering.gt)
Ordering-cases Ordering.lt = inr (λ e. ground arith)
Ordering-cases Ordering.eq = inr (λ e. ground arith)
Ordering-cases Ordering.gt = inl refl

better-Beats :
    (best key : ℤ × ℕ) → Beats (better (some best) key) best × Beats (better (some best) key) key
better-Beats best key = go (cmp_key best key) refl
  where
    go :
        (o : Ordering)
        → cmp_key best key ≡ o
        → Beats (elim o [ Ordering.gt ↦ best | _ ↦ key ]) best
          × Beats (elim o [ Ordering.gt ↦ best | _ ↦ key ]) key
    go Ordering.gt e = (Beats-refl best, λ l. ground arith)
    go Ordering.eq e = (flip-Beats best key (λ l. ground arith), Beats-refl key)
    go Ordering.lt e = (flip-Beats best key (λ l. ground arith), Beats-refl key)

abbrev BeatsBest : ℤ × ℕ → Option (ℤ × ℕ) → Type 0
BeatsBest key none = Unit
BeatsBest key (some best) = Beats key best

BeatsBest-better :
    (key k : ℤ × ℕ) (best : Option (ℤ × ℕ))
    → Beats key (better best k)
    → BeatsBest key best × Beats key k
BeatsBest-better key k none h = (tt, h)
BeatsBest-better key k (some best) h =
    let b = better-Beats best k in
    (
      Beats-trans key (better (some best) k) best h b.0,
      Beats-trans key (better (some best) k) k h b.1,
    )

better-source :
    (best : Option (ℤ × ℕ)) (k key : ℤ × ℕ) → better best k ≡ key → (best ≡ some key) ⊎ (k ≡ key)
better-source none k key e = inr e
better-source (some best) k key e = go (cmp_key best k) e
  where
    go :
        (o : Ordering)
        → (elim o [ Ordering.gt ↦ best | _ ↦ k ]) ≡ key
        → (some best ≡ some key) ⊎ (k ≡ key)
    go Ordering.gt e = inl (ap some e)
    go Ordering.eq e = inr e
    go Ordering.lt e = inr e

is_some-id_of : (k : Option (ℤ × ℕ)) → is_some (id_of k) ≡ is_some k
is_some-id_of none = refl
is_some-id_of (some key) = refl

id_of-some :
    (k : Option (ℤ × ℕ)) (id : ℕ)
    → id_of k ≡ some id
    → (key : ℤ × ℕ) × (k ≡ some key) × (key.1 ≡ id)
id_of-some none id e = absurd (cc)
id_of-some (some key) id e = (key, refl, some-injective _ _ e)

module _ {F W : Type 0} where
  -- The entry that a key names, as an enabled one.
  abbrev pub Wins : Map ℕ (Entry F W) → ℤ × ℕ → Type 0
  Wins m key = (e : Entry F W) × (get key.1 m ≡ some e) × (e.enabled ≡ true) × (e.priority ≡ key.0)

  abbrev pub BeatsEnabled : ℤ × ℕ → Map ℕ (Entry F W) → Type 0
  BeatsEnabled key m = All (λ p. (p.1.enabled ≡ false) ⊎ Beats key (p.1.priority, p.0)) m

  Wins-cons :
      (id : ℕ) (x : Entry F W) (m : Map ℕ (Entry F W)) (key : ℤ × ℕ)
      → After id m
      → Wins m key
      → Wins ((id, x) ∷ m) key
  unfolding get
  Wins-cons id x m key s w = (w.0, ground (arith, get-After id m s, compare-eq key.1 id), w.2, w.3)

  Wins-head :
      (id : ℕ) (x : Entry F W) (m : Map ℕ (Entry F W)) (key : ℤ × ℕ)
      → x.enabled ≡ true
      → (x.priority, id) ≡ key
      → Wins ((id, x) ∷ m) key
  unfolding get
  Wins-head id x m key h e = rw (← e) (x, ground arith, h, refl)

  best_key-Wins :
      (m : Map ℕ (Entry F W)) (best : Option (ℤ × ℕ)) (key : ℤ × ℕ)
      → IsSorted m
      → best_key best m ≡ some key
      → (best ≡ some key) ⊎ Wins m key
  best_key-Wins [] best key s e = inl e
  best_key-Wins ((id, x) ∷ m) best key s e = elim (Bool-cases x.enabled) [
    | inr off ↦ elim (best_key-Wins m best key (After-IsSorted id m s) (rw off at e)) [
      | inl b ↦ inl b
      | inr w ↦ inr (Wins-cons id x m key s w)
    ]
    | inl on ↦
        elim (best_key-Wins m (some (better best (x.priority, id))) key (After-IsSorted id m s)
          (rw on at e)) [
            | inl b ↦ elim (better-source best (x.priority, id) key (some-injective _ _ b)) [
              | inl h ↦ inl h
              | inr h ↦ inr (Wins-head id x m key on h)
            ]
            | inr w ↦ inr (Wins-cons id x m key s w)
          ]
  ]

  best_key-Beats :
      (m : Map ℕ (Entry F W)) (best : Option (ℤ × ℕ)) (key : ℤ × ℕ)
      → best_key best m ≡ some key
      → BeatsBest key best × BeatsEnabled key m
  best_key-Beats [] none key e = (tt, tt)
  best_key-Beats [] (some best) key e =
      (subst (λ k. Beats k best) (some-injective _ _ e) (Beats-refl best), tt)
  best_key-Beats ((id, x) ∷ m) best key e = elim (Bool-cases x.enabled) [
    | inr off ↦ let h = best_key-Beats m best key (rw off at e) in (h.0, (inl off, h.1))
    | inl on ↦
        let h = best_key-Beats m (some (better best (x.priority, id))) key (rw on at e) in
        let b = BeatsBest-better key (x.priority, id) best h.0 in (b.0, (inr b.1, h.1))
  ]

  best_key-some :
      (m : Map ℕ (Entry F W)) (best : Option (ℤ × ℕ))
      → is_some (best_key best m) ≡ (is_some best || any_enabled m)
  best_key-some [] best = ground arith
  best_key-some ((id, x) ∷ m) best = elim (Bool-cases x.enabled) [
    | inr off ↦ rw off (best_key-some m best)
    | inl on ↦ rw on (ground (arith, best_key-some m (some (better best (x.priority, id)))))
  ]

  -- The winning key, by the entry that it names.
  named :
      (m : Map ℕ (Entry F W)) (id : ℕ) (key : ℤ × ℕ)
      → key.1 ≡ id
      → BeatsEnabled key m
      → (none ≡ some key) ⊎ Wins m key
      → (e : Entry F W) × (get id m ≡ some e) × (e.enabled ≡ true) × BeatsEnabled (e.priority, id) m
  named m id key i b (inl n) = absurd (cc)
  named m id key i b (inr w) = (
    w.0,
    subst (λ j. get j m ≡ some w.0) i w.1,
    w.2,
    subst (λ k. BeatsEnabled k m) (λ t. (sym w.3 t, i t)) b,
  )

  -- There is a winner exactly when some callback is enabled. The winner is registered and enabled,
  -- and no enabled entry has a greater `(priority, id)`.
  pub winner_lem :
      (s : Scene F W)
      → IsSorted s.entries
      → (is_some (winner s) ≡ can_handle s)
        × ((id : ℕ)
            → winner s ≡ some id
            → (e : Entry F W) × (get id s.entries ≡ some e)
              × (e.enabled ≡ true)
              × BeatsEnabled (e.priority, id) s.entries)
  unfolding winner
  winner_lem s sorted = (
    is_some-id_of (best_key none s.entries) ∙ best_key-some s.entries none,
    λ id w.
        let (key, k, i) = id_of-some (best_key none s.entries) id w in
        named s.entries id key i (best_key-Beats s.entries none key k).1
          (best_key-Wins s.entries none key sorted k),
  )

-- The choice `o` is right: it is one exactly if some callback is enabled, and then it is an enabled
-- entry which no enabled entry beats by `(priority, id)`.
abbrev pub IsWinner : {F W : Type 0} → Scene F W → Option ℕ → Type 0
IsWinner {F} {W} s none = can_handle s ≡ false
IsWinner {F} {W} s (some id) =
    (e : Entry F W) × (get id s.entries ≡ some e)
    × (e.enabled ≡ true)
    × BeatsEnabled (e.priority, id) s.entries
    × (can_handle s ≡ true)

-- In any dispatcher whose entries are in order, `winner` finds none exactly if no callback is enabled,
-- and otherwise a registered and enabled entry whose `(priority, id)` no enabled entry exceeds.
pub winner-IsWinner : {F W : Type 0} (s : Scene F W) → IsSorted s.entries → IsWinner s (winner s)
winner-IsWinner s sorted = go (winner s) refl
  where
    go : (o : Option ℕ) → winner s ≡ o → IsWinner s o
    go none e = sym (winner_lem s sorted).0 ∙ ap is_some e
    go (some id) e =
        let w = (winner_lem s sorted).1 id e in
        (w.0, w.1, w.2, w.3, sym (winner_lem s sorted).0 ∙ ap is_some e)
