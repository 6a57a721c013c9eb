-- ===== src/Login/Sessions.antt =====
-- Which inputs log in.
use col.Base.{
  subst, List, [], arith, false, suc, true, zero, ℕ, ◌<◌, ◌==◌, ◌≡◌, ◌≢◌, ◌∷◌, refl, ap, ap₂, sym,
  ◌∙◌, Bool-cases, inl, inr, ==_iff, ◌⊎◌,
}
use col.Login.{strcmp, is_zero, read_name, login_from, login, c_string, chomp}

abbrev pub IsString : List ℕ → Type 0
IsString [] = Unit
IsString (c ∷ s) = (c ≢ 0) × IsString s

-- An attempt that fails, from one input to the next: another user, or another password.
pub data Fails (username password input : List ℕ) : List ℕ → Type 0 where
  other_name : (read_name input).0 ≢ username → Fails username password input (read_name input).1
  other_password :
      (read_name input).0 ≡ username
      → (read_name (read_name input).1).0 ≢ password
      → Fails username password input (read_name (read_name input).1).1

-- Attempts that fail, and then one with the right user and password.
pub data Enters (username password : List ℕ) : (failed : ℕ) (input rest : List ℕ) → Type 0 where
  enters :
      {input : List ℕ}
      → (read_name input).0 ≡ username
      → (read_name (read_name input).1).0 ≡ password
      → Enters username password 0 input (read_name (read_name input).1).1
  fails :
      {failed : ℕ} {input next rest : List ℕ}
      → Fails username password input next
      → Enters username password failed next rest
      → Enters username password (suc failed) input rest

strcmp_refl : (s : List ℕ) → is_zero (strcmp s s) ≡ true
unfolding strcmp
strcmp_refl [] = refl
strcmp_refl (c ∷ s) = ground (arith, strcmp_refl s)

strcmp_same : (p q : List ℕ) → IsString p → IsString q → is_zero (strcmp p q) ≡ true → p ≡ q
unfolding strcmp
strcmp_same [] [] hp hq e = refl
strcmp_same [] (d ∷ q) hp hq e = ground (arith, hq)
strcmp_same (c ∷ p) [] hp hq e = ground (arith, hp)
strcmp_same (c ∷ p) (d ∷ q) hp hq e = elim (Bool-cases (c == d)) [
  | inl s ↦ ap₂ ◌∷◌ ((==_iff c d).0 s) (strcmp_same p q hp.1 hq.1 (rw s at e))
  | inr n ↦ ground (arith, n)
]

c_string-IsString : (buf : List ℕ) → IsString (c_string buf)
unfolding c_string
c_string-IsString [] = tt
c_string-IsString (c ∷ buf) = ground (arith, c_string-IsString buf)

chomp-IsString : (s : List ℕ) → IsString s → IsString (chomp s)
unfolding chomp
chomp-IsString [] h = tt
chomp-IsString (c ∷ []) h = ground (arith, h)
chomp-IsString (c ∷ d ∷ s) h = (h.0, chomp-IsString (d ∷ s) h.1)

read_name-IsString : (input : List ℕ) → IsString (read_name input).0
unfolding read_name
read_name-IsString input = chomp-IsString _ (c_string-IsString _)

-- The answer of a comparison, as a fact about the strings.
compare_cases :
    (input name : List ℕ)
    → IsString name
    → ((is_zero (strcmp (read_name input).0 name) ≡ true) × ((read_name input).0 ≡ name))
      ⊎ ((is_zero (strcmp (read_name input).0 name) ≡ false) × ((read_name input).0 ≢ name))
compare_cases input name h =
    let s : List ℕ = (read_name input).0 in
    elim (Bool-cases (is_zero (strcmp s name))) [
      | inl e ↦ inl (e, strcmp_same s name (read_name-IsString input) h e)
      | inr e ↦
          inr
            (e, λ q. cc (sym (subst (λ x. is_zero (strcmp x name) ≡ false) q e) ∙ strcmp_refl name))
    ]

equal_lem :
    (input name : List ℕ)
    → (read_name input).0 ≡ name
    → is_zero (strcmp (read_name input).0 name) ≡ true
equal_lem input name e = subst (λ s. is_zero (strcmp s name) ≡ true) (sym e) (strcmp_refl name)

unequal_lem :
    (input name : List ℕ)
    → IsString name
    → (read_name input).0 ≢ name
    → is_zero (strcmp (read_name input).0 name) ≡ false
unequal_lem input name h ne = elim (compare_cases input name h) [
  | inl (_, e) ↦ absurd (ne e)
  | inr (z, _) ↦ z
]

Enters-login_from :
    (left failed : ℕ) {username password input rest : List ℕ}
    → IsString username
    → IsString password
    → failed < left
    → Enters username password failed input rest
    → login_from left username password input ≡ (true, rest)
unfolding login_from
Enters-login_from zero failed hu hp lt h = absurd (omega arith)
Enters-login_from (suc left) zero {username} {password} {input} hu hp lt (enters u p) =
    rw (equal_lem input username u, equal_lem (read_name input).1 password p) refl
Enters-login_from (suc left) (suc failed) {username} {password} {input} hu hp lt
      (fails (other_name ne) h) =
    rw (unequal_lem input username hu ne) (Enters-login_from left failed hu hp (omega arith) h)
Enters-login_from (suc left) (suc failed) {username} {password} {input} hu hp lt
      (fails (other_password u ne) h) =
    rw (equal_lem input username u, unequal_lem (read_name input).1 password hp ne)
      (Enters-login_from left failed hu hp (omega arith) h)

login_from-Enters :
    (left : ℕ) (username password input rest : List ℕ)
    → IsString username
    → IsString password
    → login_from left username password input ≡ (true, rest)
    → (failed : ℕ) × (failed < left) × Enters username password failed input rest
unfolding login_from
login_from-Enters zero username password input rest hu hp e = cc
login_from-Enters (suc left) username password input rest hu hp e =
    elim (compare_cases input username hu) [
      | inr (z, ne) ↦
          let (k, lt, h) =
            login_from-Enters left username password (read_name input).1 rest hu hp (rw z at e) in
          (suc k, omega arith, fails (other_name ne) h)
      | inl (z, u) ↦ elim (compare_cases (read_name input).1 password hp) [
        | inr (y, ne) ↦
            let (k, lt, h) =
              login_from-Enters left username password (read_name (read_name input).1).1 rest hu hp
                (rw (z, y) at e) in
            (suc k, omega arith, fails (other_password u ne) h)
        | inl (y, p) ↦
            let done : (read_name (read_name input).1).1 ≡ rest = ap (λ r. r.1) (rw (z, y) at e) in
            (0, omega arith, subst (Enters username password 0 input) done (enters u p))
      ]
    ]

-- Where login returns from inside its loop, the input has at most two attempts that fail, each with
-- another user name or another password than the configured ones, and then one with both right; the
-- input left is what follows it. The configured name and password are C strings.
pub login-Enters :
    (username password input rest : List ℕ)
    → IsString username
    → IsString password
    → login username password input ≡ (true, rest)
    → (failed : ℕ) × (failed < 3) × Enters username password failed input rest
unfolding login
login-Enters username password input rest hu hp e =
    login_from-Enters 3 username password input rest hu hp e

-- An input with at most two attempts that fail and then the right user name and password makes login
-- return from inside its loop, with the input that follows.
pub Enters-login :
    (failed : ℕ) (username password input rest : List ℕ)
    → IsString username
    → IsString password
    → failed < 3
    → Enters username password failed input rest
    → login username password input ≡ (true, rest)
unfolding login
Enters-login failed username password input rest hu hp lt h = Enters-login_from 3 failed hu hp lt h
