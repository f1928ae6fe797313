-- ===== src/Aof/Read/Ends.antt =====
-- aof.c: the loop of `aof_load` ends, since each round reads a character at least.
use credish.Prelude.{
  ℕ, zero, suc, ◌-◌, ◌≤◌, ◌≡◌, refl, sym, ◌∙◌, ap, Option, none, some, List, [], ◌∷◌, length,
  length-drop, drop, arith, ltb, ◌==◌, ◌>>=◌, Bool-cases, inl, inr,
}
use credish.Prelude.Int.{ℤ, pos, negsuc}
use credish.Sds.{Bytes}
use credish.Aof.Read.{
  take_line, fgets, read_data, bulk_of, read_bulk, read_argv, argc_of, command_of, atoi,
  read_command, load_commands,
}
use credish.Aof.Read.RoundTrip.{load_commands-nil}

-- What is left after a success has at most `n` characters.
abbrev Within : {A : Type 0} → ℕ → Option (A × Bytes) → Type 0
Within n none = Unit
Within n (some (x, rest)) = length rest ≤ n

bind-Within :
    {A B : Type 0} (n k : ℕ) (m : Option (A × Bytes)) (f : A × Bytes → Option (B × Bytes))
    → Within n m
    → ((x : A) (rest : Bytes) → length rest ≤ n → Within k (f (x, rest)))
    → Within k (m >>= f)
bind-Within n k none f h g = tt
bind-Within n k (some (x, rest)) f h g = g x rest h

take_line-le : (limit : ℕ) (file : Bytes) → length (take_line limit file).1 ≤ length file
unfolding take_line
take_line-le zero file = omega arith
take_line-le (suc limit) [] = omega arith
take_line-le (suc limit) (c ∷ file) = elim (Bool-cases (c == 10)) [
  | inl e ↦ rw e (omega arith)
  | inr e ↦ rw e (omega (arith, take_line-le limit file))
]

fgets-Within : (limit : ℕ) (file : Bytes) → Within (length file - 1) (fgets (suc limit) file)
unfolding fgets take_line
fgets-Within limit [] = tt
fgets-Within limit (c ∷ file) = elim (Bool-cases (c == 10)) [
  | inl e ↦ rw e (omega arith)
  | inr e ↦ rw e (omega (arith, take_line-le limit file))
]

read_data-Within : (len : ℤ) (file : Bytes) → Within (length file) (read_data len file)
unfolding read_data
read_data-Within (negsuc n) file = tt
read_data-Within (pos len) file = elim (Bool-cases (ltb (length file) len)) [
  | inl e ↦ rw e tt
  | inr e ↦ rw e (omega (arith, length-drop 2 (drop len file), length-drop len file))
]

bulk_of-Within : (line file : Bytes) → Within (length file) (bulk_of line file)
unfolding bulk_of
bulk_of-Within [] file = tt
bulk_of-Within (c ∷ line) file = elim (Bool-cases (c == 36)) [
  | inl e ↦ rw e (read_data-Within (atoi line) file)
  | inr e ↦ rw e tt
]

weaken : {A : Type 0} {n k : ℕ} (m : Option (A × Bytes)) → n ≤ k → Within n m → Within k m
weaken none h w = tt
weaken (some (x, rest)) h w = omega (arith, h, w)

read_bulk-Within : (file : Bytes) → Within (length file) (read_bulk file)
unfolding read_bulk
read_bulk-Within file =
    bind-Within (length file) (length file) (fgets 255 file) (λ r. bulk_of r.0 r.1)
      (weaken (fgets 255 file) (omega arith) (fgets-Within 254 file))
      (λ x rest h. weaken (bulk_of x rest) h (bulk_of-Within x rest))

read_argv-Within : (n : ℕ) (file : Bytes) → Within (length file) (read_argv n file)
unfolding read_argv
read_argv-Within zero file = omega arith
read_argv-Within (suc n) file =
    bind-Within (length file) (length file) (read_bulk file) _ (read_bulk-Within file)
      (λ arg rest h.
        bind-Within (length rest) (length file) (read_argv n rest) _ (read_argv-Within n rest)
          (λ argv rest' h'. omega (arith, h, h')))

command_of-Within : (n : ℕ) (file : Bytes) → Within (length file) (command_of n file)
unfolding command_of
command_of-Within zero file = omega arith
command_of-Within (suc n) file =
    bind-Within (length file) (length file) (read_argv (suc n) file) _
      (read_argv-Within (suc n) file) (λ argv rest h. h)

read_command-Within : (file : Bytes) → Within (length file - 1) (read_command file)
unfolding read_command
read_command-Within file =
    bind-Within (length file - 1) (length file - 1) (fgets 1023 file)
      (λ r. command_of (argc_of r.0) r.1) (fgets-Within 1022 file)
      (λ line rest h.
        weaken (command_of (argc_of line) rest) h (command_of-Within (argc_of line) rest))

-- With as many rounds as the file has characters, or more, `aof_load` comes to its end: the commands
-- that it reads do not depend on how many more.
pub load_commands-enough :
    (k j : ℕ) (file : Bytes)
    → length file ≤ k
    → length file ≤ j
    → load_commands k file ≡ load_commands j file
unfolding load_commands
load_commands-enough k j [] h h' = load_commands-nil k ∙ sym (load_commands-nil j)
load_commands-enough zero j (c ∷ file) h h' = absurd (omega arith)
load_commands-enough (suc k) zero (c ∷ file) h h' = absurd (omega arith)
load_commands-enough (suc k) (suc j) (c ∷ file) h h' =
    round (λ rest w. load_commands-enough k j rest (omega (arith, h)) (omega (arith, h')))
      (read_command (c ∷ file))
      (weaken (read_command (c ∷ file)) (omega arith) (read_command-Within (c ∷ file)))
  where
    round :
        ((rest : Bytes) → length rest ≤ length file → load_commands k rest ≡ load_commands j rest)
        → (m : Option (Option (List Bytes) × Bytes)) → Within (length file) m
        → (elim m [
          | none ↦ []
          | some (none, rest) ↦ load_commands k rest
          | some (some argv, rest) ↦ argv ∷ load_commands k rest
        ])
          ≡ (elim m [
            | none ↦ []
            | some (none, rest) ↦ load_commands j rest
            | some (some argv, rest) ↦ argv ∷ load_commands j rest
          ])
    round same none w = refl
    round same (some (none, rest)) w = same rest w
    round same (some (some argv, rest)) w = ap (λ l. argv ∷ l) (same rest w)
