-- ===== src/Sandbox/Tests.antt =====
-- Runs of the executors, and the theorems at those.
use agentcook.Prelude.{
  ℕ, ◌+◌, ◌≡◌, refl, Bool, true, false, [], ◌∷◌, ◌++◌, none, some, ◌==◌, if◌then◌else◌, arith,
}
use agentcook.Prelude.Chars.{Chars, codes, same, strip_by, strip_left, strip_right}
use agentcook.Prelude.Strings.{show}
use agentcook.Prelude.Integers.{pos, negsuc}
use agentcook.Sandbox.Command.{quote, escape, redirection, shell_line}
use agentcook.Sandbox.Command.Laws.{Shell, shell_line-word}
use agentcook.Sandbox.Executor.{
  Process, Outcome, completed, expired, SandboxResult, finished, check_oom, force_remove,
  after_process, docker_run,
}
use agentcook.Sandbox.Executor.Laws.{Reports, Handled, docker_run-Reports}

-- A shell with quotes, backslashes and blanks, and no more.
abbrev next : ℕ → Chars × Chars → Chars × Chars
next c (w, rest) = (c ∷ w, rest)

abbrev word : Bool → Chars → Chars × Chars
word q [] = ([], [])
word true (c ∷ s) =
    let inside = word true s in
    let outside = word false s in if c == quote then outside else next c inside
word false (c ∷ []) =
    if c == quote then ([], []) else if c == b' ' then ([], c ∷ []) else (c ∷ [], [])
word false (c ∷ d ∷ s) =
    let inside = word true (d ∷ s) in
    let outside = word false (d ∷ s) in
    let skipped = word false s in
    if c == quote
    then inside
    else if c == b'\\'
    then next d skipped
    else if c == b' '
    then ([], c ∷ d ∷ s)
    else next c outside

shell : Shell
shell = record {
  word = word;
  opening = opening;
  closing = λ s. refl;
  literal = λ c s e. ground (arith, e);
  backslash = λ s. refl;
  blank = blank;
}
  where
    opening : (s : Chars) → word false (quote ∷ s) ≡ word true s
    opening [] = refl
    opening (c ∷ s) = refl

    blank : (s : Chars) → word false (b' ' ∷ s) ≡ ([], b' ' ∷ s)
    blank [] = refl
    blank (c ∷ s) = refl

abbrev code : Chars
code = codes "print('a b')"

shell_line_run :
    shell_line (codes "'") (codes "m.py") ≡ codes "echo ''\\''' > /tmp/m.py && python /tmp/m.py"
unfolding escape
shell_line_run = refl

shell_line-word_example :
    (rest : Chars) × (shell_line code (codes "main.py") ≡ codes "echo " ++ rest)
    × (shell.word false rest ≡ (code, redirection (codes "main.py")))
shell_line-word_example = shell_line-word shell code (codes "main.py")

abbrev half : ℕ
half = 5

abbrev str_float : ℕ → Chars
str_float n = codes "0.5"

-- The first process ends with code 0, and the second one, the inspection, tells of a kill for memory.
-- The world counts the processes.
abbrev spawn : Process → ℕ → Outcome × ℕ
spawn process n = (completed (pos 0) (if n == 0 then codes "out" else codes "true ") [], n + 1)

abbrev lower : Chars → Chars
lower s = s

abbrev killed : SandboxResult
killed = record {
  exit_code = pos 0;
  stdout = codes "out";
  stderr = [];
  duration_ms = 12;
  timed_out = false;
  oom_killed = true;
  container_id = some (codes "sandbox-1");
}

docker_run-Reports_example :
    Reports (completed (pos 0) (codes "out") []) killed
    × Handled spawn
        (codes "docker")
        lower
        (codes "sandbox-1")
        (completed (pos 0) (codes "out") [])
        1
        (docker_run spawn
          (codes "docker")
          lower
          half
          str_float
          (codes "sandbox-1")
          12
          code
          none
          (codes "main.py")
          none
          0).1
        killed
docker_run-Reports_example =
    docker_run-Reports spawn (codes "docker") lower half str_float (codes "sandbox-1") 12 code none
      (codes "main.py") none 0 killed
      (unfold docker_run after_process check_oom same strip_by strip_left strip_right in refl)

-- The first process expires, and the container is removed.
abbrev slow : Process → ℕ → Outcome × ℕ
slow process n = if n == 0 then (expired, 1) else (completed (pos 0) [] [], n + 1)

expired_run :
    docker_run slow
      (codes "docker")
      lower
      half
      str_float
      (codes "sandbox-1")
      30001
      code
      none
      (codes "main.py")
      none
      0
    ≡ (
      finished (record {
        exit_code = negsuc 0;
        stdout = [];
        stderr = codes "Execution timed out after 30s";
        duration_ms = 30001;
        timed_out = true;
        oom_killed = false;
        container_id = some (codes "sandbox-1");
      }),
      2,
    )
unfolding docker_run after_process force_remove show
expired_run = refl
