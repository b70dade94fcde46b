-- ===== src/Messages/Codes.antt =====
-- The strings of the refusal codes (swap-common/src/messages.rs).
use pubky_swap.Prelude.{◌≡◌, ◌↔◌, refl, String, some, List, [], ◌∷◌, arith, string_eq}
use pubky_swap.Messages.{RejectCode, code_as_str, code_from_str, find_code, all_codes, not_found}

find_code_sound :
    (value : String) (cs : List RejectCode) (c : RejectCode)
    → find_code value cs ≡ some c
    → code_as_str c ≡ value
unfolding find_code
find_code_sound value [] c h = cc
find_code_sound value (d ∷ cs) c h =
    ground (arith, string_eq.beq_iff (code_as_str d) value, find_code_sound value cs c)

find_code-own : (c : RejectCode) → find_code (code_as_str c) all_codes ≡ some c
unfolding find_code all_codes code_as_str
find_code-own not_found = refl
find_code-own _ = refl

-- A text is read as a code exactly when it is that code's own spelling: every code is read back
-- from what is sent for it, and no other text is taken for it.
pub code_from_str_iff :
    (value : String) (c : RejectCode) → (code_from_str value ≡ some c) ↔ (code_as_str c ≡ value)
unfolding code_from_str
code_from_str_iff value c = (find_code_sound value all_codes c, λ e. rw (← e) (find_code-own c))
