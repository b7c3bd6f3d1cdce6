-- ===== src/Game/Judge/Verdict.antt =====
-- The two loops over outputs against a description by pairs: `judge_on` reads the tests and the outputs
-- side by side, and `Agree` says that every test has its output.
use grass.Prelude.{
  ℕ, suc, ◌+◌, ◌<◌, ◌≤◌, String, ◌≡◌, ◌↔◌, refl, ap, Option, none, some, List, [], ◌∷◌, ◌++◌, map,
  length, get_elem?, length-append, append-nil, append_assoc, eq_iff, if◌then◌else◌, arith,
  Bool-cases, inl, inr, leb, Option-cases,
}
use grass.Models.Task.{TestCase}
use grass.Game.Judge.{Judged, chomp, passes, judge_public, judge_private}

-- One output for each test, and each is what the test expects once a last newline is off.
abbrev pub Agree : List TestCase → List String → Type 0
Agree [] [] = Unit
Agree [] (s ∷ ss) = ⊥
Agree (t ∷ ts) [] = ⊥
Agree (t ∷ ts) (s ∷ ss) = (chomp s ≡ t.expected) × Agree ts ss

-- The judged pairs, in order; an output with no test has no pair.
abbrev pub pairs : List TestCase → List String → List Judged
pairs [] ss = []
pairs (t ∷ ts) [] = []
pairs (t ∷ ts) (s ∷ ss) = (t, chomp s) ∷ pairs ts ss

abbrev pub passed : List Judged → List Judged
passed [] = []
passed (d ∷ ds) = if passes d.0 d.1 then d ∷ passed ds else passed ds

abbrev pub missed : List Judged → List Judged
missed [] = []
missed (d ∷ ds) = if passes d.0 d.1 then missed ds else d ∷ missed ds

get_elem?-middle :
    (pre ts : List TestCase) (t : TestCase) → get_elem? (pre ++ t ∷ ts) (length pre) ≡ some t
get_elem?-middle [] ts t = refl
get_elem?-middle (p ∷ pre) ts t = get_elem?-middle pre ts t

get_elem?-end : (pre : List TestCase) → get_elem? pre (length pre) ≡ none
get_elem?-end [] = refl
get_elem?-end (p ∷ pre) = get_elem?-end pre

length-snoc : (pre : List TestCase) (t : TestCase) → length (pre ++ t ∷ []) ≡ length pre + 1
length-snoc pre t = omega (arith, length-append pre (t ∷ []))

judge_public-from :
    (pre ts : List TestCase) (ss : List String) (fin fail : List Judged)
    → length ss ≤ length ts
    → judge_public (pre ++ ts) (length pre) ss fin fail
      ≡ some (fin ++ passed (pairs ts ss), fail ++ missed (pairs ts ss))
unfolding judge_public
judge_public-from pre [] [] fin fail h = simp append-nil
judge_public-from pre (t ∷ ts) [] fin fail h = simp append-nil
judge_public-from pre [] (s ∷ ss) fin fail h = absurd (omega arith)
judge_public-from pre (t ∷ ts) (s ∷ ss) fin fail h = elim (Bool-cases (passes t (chomp s))) [
  | inl hit ↦
      let rest =
        judge_public-from (pre ++ t ∷ []) ts ss (fin ++ (t, chomp s) ∷ []) fail (omega arith) in
      rw (get_elem?-middle pre ts t, judge_public, hit)
        (rw (append_assoc, length-snoc, append_assoc) at rest)
  | inr miss ↦
      let rest =
        judge_public-from (pre ++ t ∷ []) ts ss fin (fail ++ (t, chomp s) ∷ []) (omega arith) in
      rw (get_elem?-middle pre ts t, judge_public, miss)
        (rw (append_assoc, length-snoc, append_assoc) at rest)
]

judge_public-over :
    (pre ts : List TestCase) (ss : List String) (fin fail : List Judged)
    → length ts < length ss
    → judge_public (pre ++ ts) (length pre) ss fin fail ≡ none
unfolding judge_public
judge_public-over pre ts [] fin fail h = absurd (omega arith)
judge_public-over pre [] (s ∷ ss) fin fail h = rw append-nil (rw (get_elem?-end pre, judge_public))
judge_public-over pre (t ∷ ts) (s ∷ ss) fin fail h =
    let rest = λ (f x : List Judged). judge_public-over (pre ++ t ∷ []) ts ss f x (omega arith) in
    rw (get_elem?-middle pre ts t, judge_public) (rw (append_assoc, length-snoc) at rest _ _)

length-passed-le :
    (ts : List TestCase) (ss : List String) → length (passed (pairs ts ss)) ≤ length ts
length-passed-le [] ss = omega arith
length-passed-le (t ∷ ts) [] = omega arith
length-passed-le (t ∷ ts) (s ∷ ss) = ground (arith, length-passed-le ts ss)

passed-Agree :
    (ts : List TestCase) (ss : List String)
    → length ss ≤ length ts
    → length (passed (pairs ts ss)) ≡ length ts
    → Agree ts ss
passed-Agree [] [] h e = tt
passed-Agree [] (s ∷ ss) h e = absurd (omega arith)
passed-Agree (t ∷ ts) [] h e = absurd (omega arith)
passed-Agree (t ∷ ts) (s ∷ ss) h e = elim (Bool-cases (passes t (chomp s))) [
  | inl hit ↦ ((eq_iff (chomp s) t.expected).0 hit, passed-Agree ts ss (omega arith) (ground arith))
  | inr miss ↦ let short = length-passed-le ts ss in absurd (ground arith)
]

Agree-passed :
    (ts : List TestCase) (ss : List String)
    → Agree ts ss
    → length (passed (pairs ts ss)) ≡ length ts
Agree-passed [] [] a = refl
Agree-passed [] (s ∷ ss) a = absurd a
Agree-passed (t ∷ ts) [] a = absurd a
Agree-passed (t ∷ ts) (s ∷ ss) a =
    rw ((eq_iff (chomp s) t.expected).1 a.0) (ap suc (Agree-passed ts ss a.1))

Agree-length : (ts : List TestCase) (ss : List String) → Agree ts ss → length ss ≡ length ts
Agree-length [] [] a = refl
Agree-length [] (s ∷ ss) a = absurd a
Agree-length (t ∷ ts) [] a = absurd a
Agree-length (t ∷ ts) (s ∷ ss) a = ap suc (Agree-length ts ss a.1)

-- The loop over the public tests fails exactly when there are more outputs than tests. Otherwise it
-- gives the pairs that pass and the pairs that do not, each in order.
pub judge_public_lem :
    (ts : List TestCase) (ss : List String)
    → judge_public ts 0 ss [] [] ≡ (
        if leb (length ss) (length ts)
        then some (passed (pairs ts ss), missed (pairs ts ss))
        else none)
judge_public_lem ts ss = elim (Bool-cases (leb (length ss) (length ts))) [
  | inl le ↦ rw le (judge_public-from [] ts ss [] [] (ground arith))
  | inr gt ↦ rw gt (judge_public-over [] ts ss [] [] (ground arith))
]

-- As many outputs pass as there are tests exactly when every test has the output that it expects.
pub judge_public-Agree :
    (ts : List TestCase) (ss : List String) {fin fail : List Judged}
    → judge_public ts 0 ss [] [] ≡ some (fin, fail)
    → (length fin ≡ length ts) ↔ Agree ts ss
judge_public-Agree ts ss {fin} {fail} e = elim (Bool-cases (leb (length ss) (length ts))) [
  | inl le ↦
      let same : fin ≡ passed (pairs ts ss) = ground (arith, judge_public_lem ts ss) in
      rw same (passed-Agree ts ss (ground arith), Agree-passed ts ss)
  | inr gt ↦ absurd (ground (arith, judge_public_lem ts ss))
]

-- No output may be missing or too many for all tests to agree.
pub Agree-judge_public :
    (ts : List TestCase) (ss : List String)
    → Agree ts ss
    → judge_public ts 0 ss [] [] ≡ some (passed (pairs ts ss), missed (pairs ts ss))
Agree-judge_public ts ss a = ground (arith, judge_public_lem ts ss, Agree-length ts ss a)

-- The tests of the pairs that passed.
abbrev pub tests_of : Option (List Judged × List Judged) → Option (List TestCase)
tests_of none = none
tests_of (some (fin, fail)) = some (map (λ d. d.0) fin)

map_snoc :
    (ds : List Judged) (d : Judged) → map (λ e. e.0) (ds ++ d ∷ []) ≡ map (λ e. e.0) ds ++ d.0 ∷ []
map_snoc [] d = refl
map_snoc (x ∷ ds) d = ap (◌∷◌ x.0) (map_snoc ds d)

judge_private-from :
    (ts : List TestCase) (i : ℕ) (ss : List String) (fin fail : List Judged)
    → judge_private ts i ss (map (λ d. d.0) fin) ≡ tests_of (judge_public ts i ss fin fail)
unfolding judge_private judge_public
judge_private-from ts i [] fin fail = refl
judge_private-from ts i (s ∷ ss) fin fail = elim (Option-cases (get_elem? ts i)) [
  | inl e ↦ rw (e, judge_private, judge_public)
  | inr (t, e) ↦ elim (Bool-cases (passes t (chomp s))) [
    | inl hit ↦
        rw (e, judge_private, judge_public, hit, ← map_snoc fin (t, chomp s))
          (judge_private-from ts (i + 1) ss (fin ++ (t, chomp s) ∷ []) fail)
    | inr miss ↦
        rw (e, judge_private, judge_public, miss)
          (judge_private-from ts (i + 1) ss fin (fail ++ (t, chomp s) ∷ []))
  ]
]

-- The loop over the private tests keeps the tests that the loop over public tests would pass, and fails
-- where that one does.
pub judge_private_lem :
    (ts : List TestCase) (ss : List String)
    → judge_private ts 0 ss [] ≡ tests_of (judge_public ts 0 ss [] [])
judge_private_lem ts ss = judge_private-from ts 0 ss [] []
