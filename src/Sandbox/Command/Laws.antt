-- ===== src/Sandbox/Command/Laws.antt =====
-- What reaches the shell, and the limits that every command carries.
use mathlib.Core.List.{append_assoc}
use agentcook.Prelude.{
  ℕ, ◌≡◌, ◌⊎◌, refl, ap, sym, ◌∙◌, Bool, true, false, List, [], ◌∷◌, ◌++◌, Option, ◌==◌, inl, inr,
  Bool-cases, arith,
}
use agentcook.Prelude.Chars.{Chars, codes}
use agentcook.Sandbox.Command.{
  SandboxConfig, value, quote, escape, quoted, redirection, shell_line, env_options, mount_options,
  base_options, read_only_options, build_command,
}

-- How a POSIX shell reads a word: `word true` inside of single quotes, `word false` outside. The
-- answer is the word and the rest of the line. Inside, all but a quote stands for itself; outside, a
-- backslash takes a quote literally, and a blank ends the word.
pub record Shell : Type 0 where
  pub word : Bool → Chars → Chars × Chars
  pub opening : (s : Chars) → word false (quote ∷ s) ≡ word true s
  pub closing : (s : Chars) → word true (quote ∷ s) ≡ word false s
  pub literal :
      (c : ℕ) (s : Chars)
      → (c == quote) ≡ false
      → word true (c ∷ s) ≡ (c ∷ (word true s).0, (word true s).1)
  pub backslash :
      (s : Chars) → word false (b'\\' ∷ quote ∷ s) ≡ (quote ∷ (word false s).0, (word false s).1)
  pub blank : (s : Chars) → word false (b' ' ∷ s) ≡ ([], b' ' ∷ s)

eq_of_test : (c d : ℕ) → (c == d) ≡ true → c ≡ d
eq_of_test c d e = ground (arith, e)

module _ (shell : Shell) where
  open shell use {word, opening, closing, literal, backslash, blank}

  -- An escaped quote, read from inside of quotes.
  through_quote :
      (s : Chars)
      → word true (quote ∷ b'\\' ∷ quote ∷ quote ∷ s) ≡ (quote ∷ (word true s).0, (word true s).1)
  through_quote s =
      closing (b'\\' ∷ quote ∷ quote ∷ s)
      ∙ backslash (quote ∷ s)
      ∙ ap (λ w. (quote ∷ w.0, w.1)) (opening s)

  escape-word : (code s : Chars) → word true (escape code ++ quote ∷ b' ' ∷ s) ≡ (code, b' ' ∷ s)
  unfolding escape
  escape-word [] s = closing (b' ' ∷ s) ∙ blank s
  escape-word (c ∷ code) s = elim (Bool-cases (c == quote)) [
    | inl e ↦ rw e (
        through_quote (escape code ++ quote ∷ b' ' ∷ s)
        ∙ ap (λ w. (quote ∷ w.0, w.1)) (escape-word code s)
        ∙ ap (λ q. (q ∷ code, b' ' ∷ s)) (sym (eq_of_test c quote e)))
    | inr e ↦ rw e (
        literal c (escape code ++ quote ∷ b' ' ∷ s) e
        ∙ ap (λ w. (c ∷ w.0, w.1)) (escape-word code s))
  ]

  -- Whatever the code is, the shell reads it back as the first word of `echo`, character by character,
  -- and the redirection after it is not part of it: the code cannot end its quotes.
  pub shell_line-word :
      (code script_name : Chars)
      → (rest : Chars) × (shell_line code script_name ≡ codes "echo " ++ rest)
        × (word false rest ≡ (code, redirection script_name))
  shell_line-word code script_name = (
    quoted code ++ redirection script_name,
    refl,
    ap (λ q. word false (quote ∷ q))
          (append_assoc (escape code) (quote ∷ []) (redirection script_name))
        ∙ opening _
        ∙ escape-word code _,
  )

-- Two words of a command that follow each other.
pub data Follow (a b : Chars) : List Chars → Type 0 where
  here : {l : List Chars} → Follow a b (a ∷ b ∷ l)
  later : {c : Chars} {l : List Chars} → Follow a b l → Follow a b (c ∷ l)

twice : {a b c d : Chars} {l : List Chars} → Follow a b l → Follow a b (c ∷ d ∷ l)
twice f = later (later f)

Follow-append : {a b : Chars} {l : List Chars} (m : List Chars) → Follow a b l → Follow a b (l ++ m)
Follow-append m here = here
Follow-append m (later f) = later (Follow-append m f)

Follow-prepend :
    {a b : Chars} (l : List Chars) {m : List Chars} → Follow a b m → Follow a b (l ++ m)
Follow-prepend [] f = f
Follow-prepend (c ∷ l) f = later (Follow-prepend l f)

command_assoc : (a b c d e : List Chars) → a ++ (b ++ (c ++ (d ++ e))) ≡ (a ++ (b ++ (c ++ d))) ++ e
command_assoc a b c d e = sym (
    append_assoc a (b ++ (c ++ d)) e
    ∙ ap (λ l. a ++ l) (append_assoc b (c ++ d) e ∙ ap (λ l. b ++ l) (append_assoc c d e)))

-- The limits of a configuration, as options.
pub record IsHardened {Float : Type 0} (cfg : SandboxConfig Float) (options : List Chars)
    : Type 0 where
  pub network : Follow (codes "--network") (value cfg.network_mode) options
  pub memory : Follow (codes "--memory") cfg.memory_limit options
  pub privileges : Follow (codes "--security-opt") (codes "no-new-privileges") options
  pub pids : Follow (codes "--pids-limit") (codes "64") options
  pub root : (cfg.read_only ≡ false) ⊎ Follow (codes "--read-only") (codes "--tmpfs") options

module _ {Float : Type 0} (str_float : Float → Chars) (docker : Chars)
    (cfg : SandboxConfig Float) where
  -- What stands before the image; no code and no script's name is in it.
  abbrev pub options_of : Chars → Option Chars → List Chars
  options_of container_name plugin_dir =
      base_options str_float docker cfg container_name
      ++ (read_only_options str_float docker cfg
          ++ (mount_options cfg.workdir plugin_dir
              ++ (codes "-w" ∷ cfg.workdir ∷ env_options cfg.env)))

  in_base :
      {a b : Chars} (container_name : Chars) (plugin_dir : Option Chars)
      → Follow a b (base_options str_float docker cfg container_name)
      → Follow a b (options_of container_name plugin_dir)
  in_base container_name plugin_dir f = Follow-append _ f

  -- Each command is options with the limits of the configuration, which depend on neither the code nor
  -- the script's name, then the image, the shell, and one line for it.
  pub build_command-IsHardened :
      (container_name code script_name : Chars) (plugin_dir : Option Chars)
      → (build_command str_float docker cfg container_name code script_name plugin_dir
          ≡ options_of container_name plugin_dir
            ++ cfg.image ∷ codes "sh" ∷ codes "-c" ∷ shell_line code script_name ∷ [])
        × IsHardened cfg (options_of container_name plugin_dir)
  unfolding base_options
  build_command-IsHardened container_name code script_name plugin_dir = (
    unfold build_command in
        command_assoc (base_options str_float docker cfg container_name)
          (read_only_options str_float docker cfg) (mount_options cfg.workdir plugin_dir)
          (codes "-w" ∷ cfg.workdir ∷ env_options cfg.env)
          (cfg.image ∷ codes "sh" ∷ codes "-c" ∷ shell_line code script_name ∷ []),
    record {
      network = in_base container_name plugin_dir (later (twice (twice (twice (twice here)))));
      memory = in_base container_name plugin_dir (later (twice (twice (twice here))));
      privileges =
          in_base container_name plugin_dir (later (twice (twice (twice (twice (twice here))))));
      pids =
          in_base container_name plugin_dir
            (later (twice (twice (twice (twice (twice (twice here)))))));
      root = elim (Bool-cases cfg.read_only) [
        | inl e ↦
            inr (Follow-prepend (base_options str_float docker cfg container_name) (rw e here))
        | inr e ↦ inl e
      ];
    },
  )
