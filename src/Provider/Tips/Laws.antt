-- ===== src/Provider/Tips/Laws.antt =====
-- The items of the stream of chain tips (provider/src/chain.rs).
use bitcoins_rs.Base.{
  Bool, Bool-cases, Bytes, List, Option, [], ap, arith, bytes_eq, bytes_eq_refl, false, if-false,
  inl, inr, length, ne→==, none, ok, refl, some, suc, sym, true, ℕ, ◌++◌, ◌+◌, ◌==◌, ◌∙◌, ◌∷◌, ◌≡◌,
  ◌≢◌,
}
use mathlib.Core.Path.{subst}
use bitcoins_rs.Provider.Poll.{
  Poll, Polled, ProviderFut, Response, pending, poll_fut, ready, resolved, unpause, unresolved,
}
use bitcoins_rs.Provider.Poll.Runs.{items_of, run, run-cons}
use bitcoins_rs.Provider.Tips.{Tips, TipsAnswers, just_saw, new_tips, on_tip, poll_tips, retry}

-- The state holds no future that has given its value.
abbrev is_live : Option ProviderFut → Bool
is_live (some resolved) = false
is_live _ = true

-- No item is the one before it.
pub IsFresh : Option Bytes → List Bytes → Type 0
IsFresh last [] = Unit
IsFresh last (hash ∷ hashes) = (last ≢ some hash) × IsFresh (some hash) hashes

-- What one poll may do.
data IsStep (s : Tips) (p : Polled Tips Bytes) : Type 0 where
  silent : items_of p.item ≡ [] → p.left.limit ≡ s.limit → p.left.last ≡ s.last → IsStep s p
  emits :
      (hash : Bytes)
      → items_of p.item ≡ hash ∷ []
      → suc p.left.limit ≡ s.limit
      → p.left.last ≡ some hash
      → s.last ≢ some hash
      → IsStep s p

just_saw-ne : (last : Option Bytes) (hash : Bytes) → just_saw last hash ≡ false → last ≢ some hash
unfolding just_saw
just_saw-ne none hash h e = cc
just_saw-ne (some old) hash h e =
    let same : old ≡ hash = cc in
    let equal : bytes_eq old hash ≡ true = rw same (bytes_eq_refl hash) in cc

retry-IsStep :
    (s t : Tips) (elapsed : Bool)
    → t.limit ≡ s.limit
    → t.last ≡ s.last
    → is_live t.fut_opt ≡ true
    → IsStep s (retry t elapsed) × (is_live (retry t elapsed).left.fut_opt ≡ true)
unfolding retry unpause
retry-IsStep s t true e f l = (silent refl e f, refl)
retry-IsStep s t false e f l = (silent refl e f, l)

on_tip-IsStep :
    (s : Tips) (elapsed : Bool) (answer : Poll (Response Bytes))
    → s.limit ≢ 0
    → s.fut_opt ≡ some unresolved
    → IsStep s (on_tip s elapsed answer) × (is_live (on_tip s elapsed answer).left.fut_opt ≡ true)
unfolding on_tip
on_tip-IsStep s elapsed pending h l = (silent refl refl refl, ap is_live l)
on_tip-IsStep s elapsed (ready (inl e)) h l =
    retry-IsStep s (record s { fut_opt = none }) elapsed refl refl refl
on_tip-IsStep s elapsed (ready (inr hash)) h l = elim (Bool-cases (just_saw s.last hash)) [
  | inl old ↦ rw old (silent refl refl refl, refl)
  | inr new ↦ rw new (emits hash refl (omega arith) refl (just_saw-ne s.last hash new), refl)
]

poll_fut_opt :
    (o : Option ProviderFut) (s : Tips) (a : TipsAnswers)
    → s.fut_opt ≡ o
    → s.limit ≢ 0
    → is_live o ≡ true
    → (p : Polled Tips Bytes) × (poll_tips s a ≡ ok p)
      × IsStep s p
      × (is_live p.left.fut_opt ≡ true)
unfolding poll_tips poll_fut
poll_fut_opt none s a e h l =
    let (step, live) = retry-IsStep s s a.elapsed refl refl (ap is_live e) in
    (retry s a.elapsed, if-false (s.limit == 0) _ _ (ne→== s.limit 0 h) ∙ simp e, step, live)
poll_fut_opt (some unresolved) s a e h l =
    let (step, live) = on_tip-IsStep s a.elapsed a.tip_hash h e in
    (
      on_tip s a.elapsed a.tip_hash,
      if-false (s.limit == 0) _ _ (ne→== s.limit 0 h) ∙ simp e,
      step,
      live,
    )
poll_fut_opt (some resolved) s a e h l = cc

poll_lem :
    (s : Tips) (a : TipsAnswers)
    → is_live s.fut_opt ≡ true
    → (p : Polled Tips Bytes) × (poll_tips s a ≡ ok p)
      × IsStep s p
      × (is_live p.left.fut_opt ≡ true)
unfolding poll_tips
poll_lem s a l = elim (Bool-cases (s.limit == 0)) [
  | inl over ↦ (
    record { left = s; item = ready none; woken = false },
    rw over refl,
    silent refl refl refl,
    l,
  )
  | inr more ↦ poll_fut_opt s.fut_opt s a refl (λ e. ground arith) l
]

step-Fresh :
    (s : Tips) (p : Polled Tips Bytes) (n : ℕ) (items : List Bytes)
    → IsStep s p
    → n + length items ≡ p.left.limit
    → IsFresh p.left.last items
    → (n + length (items_of p.item ++ items) ≡ s.limit) × IsFresh s.last (items_of p.item ++ items)
unfolding IsFresh
step-Fresh s p n items (silent none_new same last) count fresh =
    subst (λ l. (n + length (l ++ items) ≡ s.limit) × IsFresh s.last (l ++ items)) (sym none_new)
      (omega arith, subst (λ o. IsFresh o items) last fresh)
step-Fresh s p n items (emits hash one less last new) count fresh =
    subst (λ l. (n + length (l ++ items) ≡ s.limit) × IsFresh s.last (l ++ items)) (sym one)
      (omega arith, (new, subst (λ o. IsFresh o items) last fresh))

run_from :
    (s : Tips) (answers : List TipsAnswers)
    → is_live s.fut_opt ≡ true
    → (t : Tips) × (items : List Bytes) × (run poll_tips s answers ≡ ok (t, items))
      × (t.limit + length items ≡ s.limit)
      × IsFresh s.last items
unfolding run IsFresh
run_from s [] l = (s, [], refl, omega arith, tt)
run_from s (a ∷ answers) l =
    let (p, polled, step, live) = poll_lem s a l in
    let (t, items, went, count, fresh) = run_from p.left answers live in
    let (counted, follows) = step-Fresh s p t.limit items step count fresh in
    (
      t,
      items_of p.item ++ items,
      run-cons poll_tips s t a answers p items polled went,
      counted,
      follows,
    )

-- The stream of chain tips: polled with any answers of the provider and the timer it never panics,
-- it yields at most as many tips as its limit, and no tip is the one before it.
pub tips_lem :
    (limit : ℕ) (answers : List TipsAnswers)
    → (t : Tips) × (items : List Bytes) × (run poll_tips (new_tips limit) answers ≡ ok (t, items))
      × (t.limit + length items ≡ limit)
      × IsFresh none items
unfolding new_tips
tips_lem limit answers = run_from (new_tips limit) answers refl
