-- ===== src/Text/Tests.antt =====
-- The theorems on string.c at strings.
use shield_tv_loader.Base.{ℕ, ◌≡◌, refl, ◌↔◌, List, [], ◌∷◌, some, arith, pos, all_nil, all_cons}
use shield_tv_loader.Text.{IsText, strcmp, strcasecmp, strncasecmp, strstr, strlen}
use shield_tv_loader.Text.Compare.{strcmp_zero_iff}
use shield_tv_loader.Text.Folded.{strncasecmp_zero}
use shield_tv_loader.Text.Find.{first_match, strstr-first_match}
use shield_tv_loader.Text.{find_sub, memcmp}

abbrev boot_cmd : List ℕ
boot_cmd = b'b' ∷ b'o' ∷ b'o' ∷ b't' ∷ []

abbrev upper_cmd : List ℕ
upper_cmd = b'B' ∷ b'O' ∷ b'O' ∷ b'T' ∷ []

abbrev oo : List ℕ
oo = b'o' ∷ b'o' ∷ []

boot_cmd-IsText : IsText boot_cmd
boot_cmd-IsText =
    all_cons (record { positive = omega arith; byte = omega arith })
      (all_cons (record { positive = omega arith; byte = omega arith })
        (all_cons (record { positive = omega arith; byte = omega arith })
          (all_cons (record { positive = omega arith; byte = omega arith }) all_nil)))

upper_cmd-IsText : IsText upper_cmd
upper_cmd-IsText =
    all_cons (record { positive = omega arith; byte = omega arith })
      (all_cons (record { positive = omega arith; byte = omega arith })
        (all_cons (record { positive = omega arith; byte = omega arith })
          (all_cons (record { positive = omega arith; byte = omega arith }) all_nil)))

oo-IsText : IsText oo
oo-IsText =
    all_cons (record { positive = omega arith; byte = omega arith })
      (all_cons (record { positive = omega arith; byte = omega arith }) all_nil)

strstr_run : strstr boot_cmd oo ≡ some (b'o' ∷ b'o' ∷ b't' ∷ [])
unfolding strstr strlen find_sub memcmp
strstr_run = refl

strcmp_zero_iff_example : (strcmp boot_cmd upper_cmd ≡ pos 0) ↔ (boot_cmd ≡ upper_cmd)
strcmp_zero_iff_example = strcmp_zero_iff boot_cmd upper_cmd boot_cmd-IsText upper_cmd-IsText

strncasecmp_zero_example : strncasecmp boot_cmd upper_cmd 0 ≡ strcasecmp boot_cmd upper_cmd
unfolding strlen
strncasecmp_zero_example = strncasecmp_zero boot_cmd upper_cmd (omega arith)

strstr-first_match_example : strstr boot_cmd oo ≡ first_match oo boot_cmd
strstr-first_match_example = strstr-first_match boot_cmd oo oo-IsText
