-- ===== src/Daemon/Split.antt =====
-- What `util::split` makes of a line.
use friendviewer.Prelude.{
  ℕ, zero, suc, ◌+◌, ◌<◌, ◌≤◌, ◌≡◌, ◌≢◌, refl, sym, ◌∙◌, ap, inl, inr, true, false, Bool-cases,
  ==_iff, none, some, List, [], ◌∷◌, ◌++◌, arith, length, take, drop, All, append-nil, append_assoc,
  ◌==◌, ltb, if◌then◌else◌, length-append, length-drop, drop-add,
}
use friendviewer.Daemon.Cli.{find_from, find, substr, split_loop, split}

-- A text of parts that end at a token, and a last part.
unfoldable pub text : ℕ → List (List ℕ) → List ℕ → List ℕ
text tok [] last = last
text tok (a ∷ parts) last = a ++ (tok ∷ text tok parts last)

abbrev pub Lacks : ℕ → List ℕ → Type 0
Lacks tok a = All (λ c. c ≢ tok) a

abbrev pub last_token : List ℕ → List (List ℕ)
last_token [] = []
last_token (x ∷ xs) = (x ∷ xs) ∷ []

-- The tokens, where the text starts at `start` in the line. From the second on they may be longer
-- than their part.
unfoldable pub tokens : ℕ → ℕ → List (List ℕ) → List ℕ → List (List ℕ)
tokens tok start [] last = last_token last
tokens tok start (a ∷ parts) last =
    take (start + length a) (text tok (a ∷ parts) last)
    ∷ tokens tok (start + length a + 1) parts last

find_from-at :
    (tok : ℕ) (a rest : List ℕ) (i : ℕ)
    → Lacks tok a
    → find_from tok (a ++ (tok ∷ rest)) i ≡ some (i + length a)
unfolding find_from
find_from-at tok [] rest i h = ground (arith, (==_iff tok tok).1 refl)
find_from-at tok (c ∷ cs) rest i h = elim (Bool-cases (c == tok)) [
  | inl e ↦ absurd (h.0 ((==_iff c tok).0 e))
  | inr e ↦
      ap (λ b. if b then some i else find_from tok (cs ++ (tok ∷ rest)) (suc i)) e
      ∙ find_from-at tok cs rest (suc i) h.1
      ∙ ap some (omega arith)
]

find_from-none : (tok : ℕ) (a : List ℕ) (i : ℕ) → Lacks tok a → find_from tok a i ≡ none
unfolding find_from
find_from-none tok [] i h = refl
find_from-none tok (c ∷ cs) i h = elim (Bool-cases (c == tok)) [
  | inl e ↦ absurd (h.0 ((==_iff c tok).0 e))
  | inr e ↦
      ap (λ b. if b then some i else find_from tok cs (suc i)) e ∙ find_from-none tok cs (suc i) h.1
]

drop-past : (a rest : List ℕ) (c : ℕ) → drop (length a + 1) (a ++ (c ∷ rest)) ≡ rest
drop-past [] rest c = refl
drop-past (x ∷ xs) rest c =
    ap (λ k. drop k (x ∷ (xs ++ (c ∷ rest))))
      (let e : suc (length xs) + 1 ≡ suc (length xs + 1) = omega arith in e)
    ∙ drop-past xs rest c

module _ (tok : ℕ) (str : List ℕ) where
  split_loop-next :
      (fuel start end : ℕ) (out : List (List ℕ))
      → find str tok start ≡ some end
      → split_loop (suc fuel) str tok start out
        ≡ split_loop fuel str tok (end + 1) (out ++ (substr str start end ∷ []))
  unfolding split_loop
  split_loop-next fuel start end out e = rw (e, split_loop)

  none_found :
      (start : ℕ) (last : List ℕ)
      → Lacks tok last
      → drop start str ≡ last
      → find str tok start ≡ none
  unfolding find
  none_found start last h e = ap (λ r. find_from tok r start) e ∙ find_from-none tok last start h

  split_loop-last :
      (fuel start : ℕ) (out : List (List ℕ)) (last : List ℕ)
      → Lacks tok last
      → drop start str ≡ last
      → split_loop (suc fuel) str tok start out ≡ some (out ++ last_token last)
  unfolding split_loop
  split_loop-last fuel start out [] h e =
      let size = sym (length-drop start str) ∙ ap length e in
      let short : ltb start (length str) ≡ false = ground arith in
      rw (none_found start [] h e, split_loop)
        (ap (λ b. some (if b then out ++ (drop start str ∷ []) else out)) short
          ∙ ap some (sym (append-nil out)))
  split_loop-last fuel start out (x ∷ xs) h e =
      let size = sym (length-drop start str) ∙ ap length e in
      let long : ltb start (length str) ≡ true = ground arith in
      rw (none_found start (x ∷ xs) h e, split_loop)
        (ap (λ b. some (if b then out ++ (drop start str ∷ []) else out)) long
          ∙ ap (λ r. some (out ++ (r ∷ []))) e)

  split_loop-tokens :
      (parts : List (List ℕ)) (fuel start : ℕ) (out : List (List ℕ)) (last : List ℕ)
      → All (Lacks tok) parts
      → Lacks tok last
      → drop start str ≡ text tok parts last
      → length parts < fuel
      → split_loop fuel str tok start out ≡ some (out ++ tokens tok start parts last)
  unfolding text tokens find
  split_loop-tokens parts zero start out last h k e l = absurd (omega arith)
  split_loop-tokens [] (suc fuel) start out last h k e l = split_loop-last fuel start out last k e
  split_loop-tokens (a ∷ parts) (suc fuel) start out last h k e l =
      let end = start + length a in
      let token = take end (text tok (a ∷ parts) last) in
      let found : find str tok start ≡ some end =
        ap (λ r. find_from tok r start) e ∙ find_from-at tok a (text tok parts last) start h.0 in
      let left : drop (end + 1) str ≡ text tok parts last =
        ap (λ n. drop n str) (let g : end + 1 ≡ start + (length a + 1) = omega arith in g)
        ∙ drop-add start (length a + 1) str
        ∙ ap (drop (length a + 1)) e
        ∙ drop-past a (text tok parts last) tok in
      split_loop-next fuel start end out found
      ∙ ap (λ r. split_loop fuel str tok (end + 1) (out ++ (take end r ∷ []))) e
      ∙ split_loop-tokens parts fuel (end + 1) (out ++ (token ∷ [])) last h.1 k left (omega arith)
      ∙ ap some (append_assoc out (token ∷ []) _)

length-text :
    (tok : ℕ) (parts : List (List ℕ)) (last : List ℕ) → length parts ≤ length (text tok parts last)
unfolding text
length-text tok [] last = omega arith
length-text tok (a ∷ parts) last =
    omega (arith, length-append a (tok ∷ text tok parts last), length-text tok parts last)

-- For every line, given as the parts that end at a token and the part after the last one: `split`
-- ends, and its tokens are the first part, then for each further part that ends at a token the part
-- and what follows it, as many bytes in all as the part's end is from the start of the line; and
-- the last part, if it is not empty.
pub split-tokens :
    (tok : ℕ) (parts : List (List ℕ)) (last : List ℕ)
    → All (Lacks tok) parts
    → Lacks tok last
    → split (text tok parts last) tok ≡ some (tokens tok 0 parts last)
unfolding split
split-tokens tok parts last h k =
    split_loop-tokens tok (text tok parts last) parts _ 0 [] last h k refl
      (omega (arith, length-text tok parts last))

-- Every line is such a text.
pub cut :
    (tok : ℕ) (line : List ℕ)
    → (parts : List (List ℕ)) × (last : List ℕ) × All (Lacks tok) parts
      × Lacks tok last
      × (line ≡ text tok parts last)
unfolding text
cut tok [] = ([], [], tt, tt, refl)
cut tok (c ∷ cs) =
    let (parts, last, h, k, e) = cut tok cs in
    elim (Bool-cases (c == tok)) [
      | inl same ↦
          ([] ∷ parts, last, (tt, h), k, ap (λ x. x ∷ cs) ((==_iff c tok).0 same) ∙ ap (◌∷◌ tok) e)
      | inr other ↦ longer cs last c parts h k e (λ q. absurd (let t = (==_iff c tok).1 q in cc))
    ]
  where
    longer :
        (cs last : List ℕ) (c : ℕ) (parts : List (List ℕ))
        → All (Lacks tok) parts
        → Lacks tok last
        → cs ≡ text tok parts last
        → c ≢ tok
        → (parts' : List (List ℕ)) × (last' : List ℕ) × All (Lacks tok) parts'
          × Lacks tok last'
          × (c ∷ cs ≡ text tok parts' last')
    longer cs last c [] h k e n = ([], c ∷ last, tt, (n, k), ap (◌∷◌ c) e)
    longer cs last c (a ∷ parts) h k e n = ((c ∷ a) ∷ parts, last, ((n, h.0), h.1), k, ap (◌∷◌ c) e)
