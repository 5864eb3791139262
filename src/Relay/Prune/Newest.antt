-- ===== src/Relay/Prune/Newest.antt =====
-- What the file store's `prune` keeps.
use mathlib.Core.Path.{subst}
use over_sync.Prelude.{
  ℕ, zero, suc, ◌+◌, ◌≤◌, ◌≡◌, refl, sym, ap, ◌∙◌, Bool, false, List, [], ◌∷◌, ◌++◌, length, select,
  take, ltb, All, All-of, All-mono, All-both, Pairwise, Bool-cases, inl, inr, arith,
}
use over_sync.Relay.Records.{PersistedSubmission}
use over_sync.Relay.Prune.{
  last_seen_at, is_live, is_terminal, insert_newest, sort_newest, prune, pruned_away, drop,
}

abbrev Entry : Type 0
Entry = PersistedSubmission

-- How many entries a test takes
abbrev pub count : (Entry → Bool) → List Entry → ℕ
count p es = length (select p es)

count-append :
    (p : Entry → Bool) (es fs : List Entry) → count p (es ++ fs) ≡ count p es + count p fs
count-append p [] fs = omega arith
count-append p (e ∷ es) fs = elim (Bool-cases (p e)) [
  | inl taken ↦ rw taken (omega (arith, count-append p es fs))
  | inr passed ↦ rw passed (count-append p es fs)
]

count-insert_newest :
    (p : Entry → Bool) (e : Entry) (es : List Entry)
    → count p (insert_newest e es) ≡ count p (e ∷ es)
unfolding insert_newest
count-insert_newest p e [] = refl
count-insert_newest p e (f ∷ fs) = elim (Bool-cases (ltb (last_seen_at e) (last_seen_at f))) [
  | inl newer ↦ rw newer (ground (arith, count-insert_newest p e fs))
  | inr older ↦ rw older refl
]

count-sort_newest : (p : Entry → Bool) (es : List Entry) → count p (sort_newest es) ≡ count p es
unfolding sort_newest
count-sort_newest p [] = refl
count-sort_newest p (e ∷ es) =
    count-insert_newest p e (sort_newest es) ∙ ground (arith, count-sort_newest p es)

count-take-drop :
    (p : Entry → Bool) (n : ℕ) (es : List Entry)
    → count p es ≡ count p (take n es) + count p (drop n es)
count-take-drop p zero es = omega arith
count-take-drop p (suc n) [] = omega arith
count-take-drop p (suc n) (e ∷ es) = ground (arith, count-take-drop p n es)

count-parts :
    (p : Entry → Bool) (es : List Entry)
    → count p es ≡ count p (select is_live es) + count p (select is_terminal es)
count-parts p [] = omega arith
count-parts p (e ∷ es) = elim (Bool-cases (is_live e)) [
  | inl live ↦ rw live (ground (arith, count-parts p es))
  | inr terminal ↦ rw terminal (ground (arith, count-parts p es))
]

insert_newest-All :
    (P : Entry → Type 0) (e : Entry) (es : List Entry) → P e → All P es → All P (insert_newest e es)
unfolding insert_newest
insert_newest-All P e [] p h = (p, tt)
insert_newest-All P e (f ∷ fs) p h = elim (Bool-cases (ltb (last_seen_at e) (last_seen_at f))) [
  | inl newer ↦ rw newer (h.0, insert_newest-All P e fs p h.1)
  | inr older ↦ rw older (p, h)
]

abbrev pub NotOlder : Entry → Entry → Type 0
NotOlder e f = last_seen_at f ≤ last_seen_at e

insert_newest-Pairwise :
    (e : Entry) (es : List Entry) → Pairwise NotOlder es → Pairwise NotOlder (insert_newest e es)
unfolding insert_newest
insert_newest-Pairwise e [] h = (tt, tt)
insert_newest-Pairwise e (f ∷ fs) h = elim (Bool-cases (ltb (last_seen_at e) (last_seen_at f))) [
  | inl newer ↦ rw newer (
    insert_newest-All (NotOlder f) e fs (ground (arith, newer)) h.0,
    insert_newest-Pairwise e fs h.1,
  )
  | inr older ↦
      let here : NotOlder e f = ground (arith, older) in
      rw older
        ((here, All-mono (NotOlder f) (NotOlder e) fs (λ g k. omega (arith, here, k)) h.0), h)
]

sort_newest-Pairwise : (es : List Entry) → Pairwise NotOlder (sort_newest es)
unfolding sort_newest
sort_newest-Pairwise [] = tt
sort_newest-Pairwise (e ∷ es) = insert_newest-Pairwise e (sort_newest es) (sort_newest-Pairwise es)

ordered_parts :
    (R : Entry → Entry → Type 0) (n : ℕ) (es : List Entry)
    → Pairwise R es
    → All (λ d. All (λ k. R k d) (take n es)) (drop n es)
ordered_parts R zero es h = All-of _ es (λ d. tt)
ordered_parts R (suc n) [] h = tt
ordered_parts R (suc n) (e ∷ es) h =
    All-both (R e) (λ d. All (λ k. R k d) (take n es)) (λ d. All (λ k. R k d) (e ∷ take n es))
      (drop n es) (λ d r rest. (r, rest)) (drop-All (R e) n es h.0) (ordered_parts R n es h.1)
  where
    drop-All : (P : Entry → Type 0) (n : ℕ) (es : List Entry) → All P es → All P (drop n es)
    drop-All P zero es h = h
    drop-All P (suc n) [] h = tt
    drop-All P (suc n) (e ∷ es) h = drop-All P n es h.1

length-take : {A : Type 0} (n : ℕ) (xs : List A) → length (take n xs) ≤ n
length-take zero xs = omega arith
length-take (suc n) [] = omega arith
length-take (suc n) (x ∷ xs) = omega (arith, length-take n xs)

select-append :
    (p : Entry → Bool) (es fs : List Entry) → select p (es ++ fs) ≡ select p es ++ select p fs
select-append p [] fs = refl
select-append p (e ∷ es) fs = elim (Bool-cases (p e)) [
  | inl taken ↦ rw taken (ap (λ rest. e ∷ rest) (select-append p es fs))
  | inr passed ↦ rw passed (select-append p es fs)
]

select-live : (es : List Entry) → select is_terminal (select is_live es) ≡ []
select-live [] = refl
select-live (e ∷ es) = elim (Bool-cases (is_live e)) [
  | inl live ↦ rw live (rw live (select-live es))
  | inr terminal ↦ rw terminal (select-live es)
]

abbrev Terminal : Entry → Type 0
Terminal e = is_live e ≡ false

select-Terminal : (es : List Entry) → All Terminal (select is_terminal es)
select-Terminal [] = tt
select-Terminal (e ∷ es) = elim (Bool-cases (is_live e)) [
  | inl live ↦ rw live (select-Terminal es)
  | inr terminal ↦ rw terminal (terminal, select-Terminal es)
]

sort_newest-All : (P : Entry → Type 0) (es : List Entry) → All P es → All P (sort_newest es)
unfolding sort_newest
sort_newest-All P [] h = tt
sort_newest-All P (e ∷ es) h = insert_newest-All P e (sort_newest es) h.0 (sort_newest-All P es h.1)

take-All : (P : Entry → Type 0) (n : ℕ) (es : List Entry) → All P es → All P (take n es)
take-All P zero es h = tt
take-All P (suc n) [] h = tt
take-All P (suc n) (e ∷ es) h = (h.0, take-All P n es h.1)

select-Terminal_same : (es : List Entry) → All Terminal es → select is_terminal es ≡ es
select-Terminal_same [] h = refl
select-Terminal_same (e ∷ es) h = rw h.0 (ap (λ rest. e ∷ rest) (select-Terminal_same es h.1))

none_live : (es : List Entry) → All Terminal es → count is_live es ≡ 0
none_live [] h = refl
none_live (e ∷ es) h = rw h.0 (none_live es h.1)

sorted-Terminal : (entries : List Entry) → All Terminal (sort_newest (select is_terminal entries))
sorted-Terminal entries =
    sort_newest-All Terminal (select is_terminal entries) (select-Terminal entries)

select-prune :
    (max_records : ℕ) (entries : List Entry)
    → select is_terminal (prune max_records entries)
      ≡ take max_records (sort_newest (select is_terminal entries))
unfolding prune
select-prune max_records entries =
    let kept = take max_records (sort_newest (select is_terminal entries)) in
    select-append is_terminal (select is_live entries) kept
    ∙ ap (λ before. before ++ select is_terminal kept) (select-live entries)
    ∙ select-Terminal_same kept (
        take-All Terminal max_records (sort_newest (select is_terminal entries))
          (sorted-Terminal entries))

-- `prune` loses and adds nothing: every test takes as many of the entries as of those kept and those
-- pruned away together. No entry in flight or pending is pruned away, at most `maxRecords` of the
-- others are kept, and none that is pruned away was seen later than one of those.
pub prune-newest :
    (max_records : ℕ) (entries : List Entry)
    → let kept = prune max_records entries in
      let gone = pruned_away max_records entries in
      ((p : Entry → Bool) → count p entries ≡ count p kept + count p gone)
      × (count is_live gone ≡ 0)
      × (count is_terminal kept ≤ max_records)
      × All (λ d. All (λ k. last_seen_at d ≤ last_seen_at k) (select is_terminal kept)) gone
unfolding prune pruned_away
prune-newest max_records entries =
    let sorted = sort_newest (select is_terminal entries) in
    let terminals = select-prune max_records entries in
    let live_sorted = none_live sorted (sorted-Terminal entries) in
    (
      λ p. omega (
        arith,
        count-append p (select is_live entries) (take max_records sorted),
        count-sort_newest p (select is_terminal entries),
        count-take-drop p max_records sorted,
        count-parts p entries,
      ),
      omega (arith, live_sorted, count-take-drop is_live max_records sorted),
      omega (arith, ap (λ es. length es) terminals, length-take max_records sorted),
      subst
          (λ es. All (λ d. All (λ k. last_seen_at d ≤ last_seen_at k) es) (drop max_records sorted))
          (sym terminals)
          (ordered_parts NotOlder max_records sorted
            (sort_newest-Pairwise (select is_terminal entries))),
    )
