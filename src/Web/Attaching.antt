-- ===== src/Web/Attaching.antt =====
-- crates/essenty-web/src/wasm: which listeners a page has after browser_lifecycle.rs or browser_history.rs
-- attached to it, or failed to, and after the drop.
use essenty.Common.{
  ℕ, Bool, true, false, ◌&&◌, ◌||◌, not, Option, none, some, ◌==◌, ==_iff, ◌≡◌, refl, sym, ap, ◌∙◌,
  arith, if◌then◌else◌,
}
use essenty.Common.Results.{ok, err}
use essenty.Web.Page.{
  EventName, visibilitychange, pagehide, pageshow, popstate, number, Listener, same_listener, Dom,
  unavailable, Listened, after_add, listen_pageshow, listen_pagehide, of, listen, stop_listening,
  attach_history, drop_history,
}

number-eq : (a b : EventName) → number a ≡ number b → a ≡ b
number-eq a b h = ground arith

both : (a b : Bool) → (a && b) ≡ true → (a ≡ true) × (b ≡ true)
both true b h = (refl, h)
both false b h = absurd (cc)

same_listener-eq : (k l : Listener) → same_listener k l ≡ true → k ≡ l
same_listener-eq k l h =
    let (o, e) = both (k.owner == l.owner) (number k.event == number l.event) h in
    let same_owner : k.owner ≡ l.owner = (==_iff k.owner l.owner).0 o in
    let same_event : k.event ≡ l.event =
      number-eq k.event l.event ((==_iff (number k.event) (number l.event)).0 e) in
    ground arith

-- A listener that was added and removed again, and was not there before.
undone : (s b : Bool) → (s ≡ true → b ≡ false) → (not s && (s || b)) ≡ b
undone true b h = sym (h refl)
undone false b h = refl

undone_two :
    (s t b : Bool)
    → (s ≡ true → b ≡ false)
    → (t ≡ true → b ≡ false)
    → (not t && (not s && (t || (s || b)))) ≡ b
undone_two true true b h g = sym (h refl)
undone_two true false b h g = sym (h refl)
undone_two false true b h g = sym (g refl)
undone_two false false b h g = refl

undone_three :
    (s t u b : Bool)
    → (s ≡ true → b ≡ false)
    → (t ≡ true → b ≡ false)
    → (u ≡ true → b ≡ false)
    → (not u && (not t && (not s && (u || (t || (s || b)))))) ≡ b
undone_three true true true b h g f = sym (h refl)
undone_three true true false b h g f = sym (h refl)
undone_three true false true b h g f = sym (h refl)
undone_three true false false b h g f = sym (h refl)
undone_three false true true b h g f = sym (g refl)
undone_three false true false b h g f = sym (g refl)
undone_three false false true b h g f = sym (f refl)
undone_three false false false b h g f = refl

or_assoc : (a b c d : Bool) → (a || (b || (c || d))) ≡ ((a || (b || c)) || d)
or_assoc true b c d = refl
or_assoc false true c d = refl
or_assoc false false c d = refl

module _ (dom : Dom) where
  open dom use {Page, has_window, listening, add, remove, listening-add, listening-remove}

  -- No listener of this binding is on the page.
  abbrev pub IsFresh : ℕ → Page → Type 0
  IsFresh owner page = (event : EventName) → listening (of dom owner event) page ≡ false

  abbrev pub SameListeners : Page → Page → Type 0
  SameListeners p q = (k : Listener) → listening k p ≡ listening k q

  -- The three listeners of a binding.
  abbrev pub is_mine : ℕ → Listener → Bool
  is_mine owner k =
      same_listener k (of dom owner pageshow)
      || (same_listener k (of dom owner pagehide)
          || same_listener k (of dom owner visibilitychange))

  module _ (owner : ℕ) (page : Page) (fresh : IsFresh owner page) where
    absent :
        (k : Listener) (event : EventName)
        → same_listener k (of dom owner event) ≡ true
        → listening k page ≡ false
    absent k event h =
        ap (λ l. listening l page) (same_listener-eq k (of dom owner event) h) ∙ fresh event

    first_undone :
        (p : Page)
        → add (of dom owner visibilitychange) page ≡ some p
        → SameListeners (remove (of dom owner visibilitychange) p) page
    first_undone p a k =
        let s = same_listener k (of dom owner visibilitychange) in
        listening-remove k (of dom owner visibilitychange) p
        ∙ ap (λ x. not s && x) (listening-add k (of dom owner visibilitychange) page p a)
        ∙ undone s (listening k page) (absent k visibilitychange)

    module _ (p q : Page) (a : add (of dom owner visibilitychange) page ≡ some p)
        (b : add (of dom owner pagehide) p ≡ some q) where
      two_added :
          (k : Listener)
          → listening k q ≡ (
              same_listener k (of dom owner pagehide)
              || (same_listener k (of dom owner visibilitychange) || listening k page))
      two_added k =
          listening-add k (of dom owner pagehide) p q b
          ∙ ap (λ x. same_listener k (of dom owner pagehide) || x)
              (listening-add k (of dom owner visibilitychange) page p a)

      two_undone :
          SameListeners
            (remove (of dom owner pagehide) (remove (of dom owner visibilitychange) q))
            page
      two_undone k =
          let s = same_listener k (of dom owner visibilitychange) in
          let t = same_listener k (of dom owner pagehide) in
          listening-remove k (of dom owner pagehide) (remove (of dom owner visibilitychange) q)
          ∙ ap (λ x. not t && x) (listening-remove k (of dom owner visibilitychange) q)
          ∙ ap (λ x. not t && (not s && x)) (two_added k)
          ∙ undone_two s t (listening k page) (absent k visibilitychange) (absent k pagehide)

      module _ (r : Page) (c : add (of dom owner pageshow) q ≡ some r) where
        three_added :
            (k : Listener)
            → listening k r ≡ (
                same_listener k (of dom owner pageshow)
                || (same_listener k (of dom owner pagehide)
                    || (same_listener k (of dom owner visibilitychange) || listening k page)))
        three_added k =
            listening-add k (of dom owner pageshow) q r c
            ∙ ap (λ x. same_listener k (of dom owner pageshow) || x) (two_added k)

        all_mine : (k : Listener) → listening k r ≡ (is_mine owner k || listening k page)
        all_mine k =
            three_added k
            ∙ or_assoc (same_listener k (of dom owner pageshow))
                (same_listener k (of dom owner pagehide))
                (same_listener k (of dom owner visibilitychange)) (listening k page)

        three_undone : SameListeners (stop_listening dom owner r) page
        unfolding stop_listening
        three_undone k =
            let s = same_listener k (of dom owner visibilitychange) in
            let t = same_listener k (of dom owner pagehide) in
            let u = same_listener k (of dom owner pageshow) in
            let r' = remove (of dom owner visibilitychange) r in
            listening-remove k (of dom owner pageshow) (remove (of dom owner pagehide) r')
            ∙ ap (λ x. not u && x) (listening-remove k (of dom owner pagehide) r')
            ∙ ap (λ x. not u && (not t && x)) (listening-remove k (of dom owner visibilitychange) r)
            ∙ ap (λ x. not u && (not t && (not s && x))) (three_added k)
            ∙ undone_three s t u (listening k page) (absent k visibilitychange) (absent k pagehide)
                (absent k pageshow)

    -- Three listeners more, which the drop takes away again, or none.
    abbrev pub Listens : Listened dom → Type 0
    Listens (err e, p) = SameListeners p page
    Listens (ok _, p) =
        ((k : Listener) → listening k p ≡ (is_mine owner k || listening k page))
        × SameListeners (stop_listening dom owner p) page

    third_step :
        (p q : Page) (o : Option Page)
        → add (of dom owner visibilitychange) page ≡ some p
        → add (of dom owner pagehide) p ≡ some q
        → add (of dom owner pageshow) q ≡ o
        → Listens (
            after_add dom o q
              (λ p. remove (of dom owner pagehide) (remove (of dom owner visibilitychange) p))
              (λ p. (ok tt, p)))
    third_step p q none a b c = two_undone p q a b
    third_step p q (some r) a b c = (all_mine p q a b r c, three_undone p q a b r c)

    second_step :
        (p : Page) (o : Option Page)
        → add (of dom owner visibilitychange) page ≡ some p
        → add (of dom owner pagehide) p ≡ o
        → Listens (
            after_add dom o p
              (λ p. remove (of dom owner visibilitychange) p)
              (listen_pageshow dom owner))
    second_step p none a b = first_undone p a
    second_step p (some q) a b = third_step p q (add (of dom owner pageshow) q) a b refl

    first_step :
        (o : Option Page)
        → add (of dom owner visibilitychange) page ≡ o
        → Listens (after_add dom o page (λ p. p) (listen_pagehide dom owner))
    first_step none a = λ k. refl
    first_step (some p) a = second_step p (add (of dom owner pagehide) p) a refl

    pub listen-Listens : Listens (listen dom owner page)
    unfolding listen
    listen-Listens = first_step (add (of dom owner visibilitychange) page) refl

    -- One listener more, which the drop takes away again, or none.
    abbrev pub Observes : Listened dom → Type 0
    Observes (err e, p) = SameListeners p page
    Observes (ok _, p) =
        ((k : Listener)
          → listening k p ≡ (same_listener k (of dom owner popstate) || listening k page))
        × SameListeners (drop_history dom owner p) page

    history_step :
        (o : Option Page)
        → add (of dom owner popstate) page ≡ o
        → Observes (after_add dom o page (λ p. p) (λ p. (ok tt, p)))
    unfolding drop_history
    history_step none a = λ k. refl
    history_step (some p) a = (
      (λ k. listening-add k (of dom owner popstate) page p a),
      λ k.
          let s = same_listener k (of dom owner popstate) in
          listening-remove k (of dom owner popstate) p
          ∙ ap (λ x. not s && x) (listening-add k (of dom owner popstate) page p a)
          ∙ undone s (listening k page) (absent k popstate),
    )

    if_Observes :
        (b : Bool) (r : Listened dom)
        → Observes r
        → Observes (if b then r else (err unavailable, page))
    if_Observes true r h = h
    if_Observes false r h = λ k. refl

    pub attach_history-Observes : Observes (attach_history dom owner page)
    unfolding attach_history
    attach_history-Observes =
        if_Observes (has_window page) _ (history_step (add (of dom owner popstate) page) refl)
