-- ===== src/Gate/Files.antt =====
-- Files written into the container: `write_file_command` of retinue/container_build.py and the plan
-- of retinue/adhoc_build.py.
use the_retinue.Base.{
  ℕ, ◌+◌, ◌-◌, ◌*◌, ◌/◌, ◌%◌, List, [], ◌∷◌, ◌++◌, ltb, nat_beq, if◌then◌else◌, nat_eq, list_eq,
  Text, text,
}
use the_retinue.Exec.{Exec, ◌>>=◌, ◌>>◌, pure}
use the_retinue.Container.{BuildLog, BuildSeams, writing, run_command}

-- `str.encode()`, one character: its bytes in UTF-8.
unfoldable pub utf8_char : ℕ → List ℕ
utf8_char c =
    if ltb c 128
    then c ∷ []
    else if ltb c 2048
    then (192 + c / 64) ∷ (128 + c % 64) ∷ []
    else if ltb c 65536
    then (224 + c / 4096) ∷ (128 + c / 64 % 64) ∷ (128 + c % 64) ∷ []
    else (240 + c / 262144) ∷ (128 + c / 4096 % 64) ∷ (128 + c / 64 % 64) ∷ (128 + c % 64) ∷ []

unfoldable pub utf8 : Text → List ℕ
unfolding utf8_char
utf8 [] = []
utf8 (c ∷ s) = utf8_char c ++ utf8 s

-- The character of six bits.
unfoldable pub b64_char : ℕ → ℕ
b64_char n =
    if ltb n 26
    then n + b'A'
    else if ltb n 52
    then n - 26 + b'a'
    else if ltb n 62
    then n - 52 + b'0'
    else if nat_beq n 62
    then b'+'
    else b'/'

-- `base64.b64encode`
unfoldable pub b64encode : List ℕ → Text
unfolding b64_char
b64encode [] = []
b64encode (a ∷ []) = b64_char (a / 4) ∷ b64_char (a % 4 * 16) ∷ b'=' ∷ b'=' ∷ []
b64encode (a ∷ b ∷ []) =
    b64_char (a / 4) ∷ b64_char (a % 4 * 16 + b / 16) ∷ b64_char (b % 16 * 4) ∷ b'=' ∷ []
b64encode (a ∷ b ∷ c ∷ bytes) =
    b64_char (a / 4)
    ∷ b64_char (a % 4 * 16 + b / 16)
    ∷ b64_char (b % 16 * 4 + c / 64)
    ∷ b64_char (c % 64)
    ∷ b64encode bytes

unfoldable pub write_file_command : Text → Text → List Text
unfolding b64encode utf8
write_file_command path content =
    text "sh"
    ∷ text "-c"
    ∷ text "printf %s \"$1\" | base64 -d > \"$2\""
    ∷ text "sh"
    ∷ b64encode (utf8 content)
    ∷ path
    ∷ []

abbrev pub plan_file : Text
plan_file = text ".retinue/plan.md"

-- `_materialize_plan`: neither command's exit code is looked at.
unfoldable pub materialize_plan : BuildSeams → Text → Exec BuildLog (Unit {0})
unfolding write_file_command run_command
materialize_plan seams plan =
    run_command seams writing (text "mkdir" ∷ text "-p" ∷ text ".retinue" ∷ []) []
    >> (run_command seams writing (write_file_command plan_file plan) [] >>= (λ result. pure tt))
