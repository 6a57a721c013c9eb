-- ===== src/Login/Tests.antt =====
-- A login with one attempt that fails.
use col.Base.{List, ℕ, [], ◌∷◌, refl, arith, true, ◌≡◌, ◌<◌}
use col.Login.{login, login_from, read_name, gets, gets_from, c_string, chomp, strcmp}
use col.Login.Sessions.{Enters, login-Enters}

abbrev user : List ℕ
user = b'u' ∷ []

abbrev passwd : List ℕ
passwd = b'p' ∷ []

-- "x", "u", "p" and "ls", a line each
abbrev typed : List ℕ
typed = b'x' ∷ b'\n' ∷ b'u' ∷ b'\n' ∷ b'p' ∷ b'\n' ∷ b'l' ∷ b's' ∷ b'\n' ∷ []

login-typed : login user passwd typed ≡ (true, b'l' ∷ b's' ∷ b'\n' ∷ [])
unfolding login login_from read_name gets gets_from c_string chomp strcmp
login-typed = refl

login-Enters_example :
    (failed : ℕ) × (failed < 3) × Enters user passwd failed typed (b'l' ∷ b's' ∷ b'\n' ∷ [])
login-Enters_example =
    login-Enters user passwd typed (b'l' ∷ b's' ∷ b'\n' ∷ []) (omega arith, tt) (omega arith, tt)
      login-typed
