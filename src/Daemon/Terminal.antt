-- ===== src/Daemon/Terminal.antt =====
-- What the terminal's loop makes of a line.
use friendviewer.Prelude.{ℕ, ◌≡◌, ◌≢◌, ◌↔◌, refl, sym, ◌∙◌, ap, none, List, [], ◌∷◌, arith, All}
use friendviewer.Daemon.{Daemon, Outside}
use friendviewer.Daemon.Cli.{handle_command, handle_cli}
use friendviewer.Daemon.Split.{text, tokens, Lacks, cut, split-tokens}

module _ (o : Outside) where
  open o use {Float}

  handle_command-some :
      (token : List ℕ) (rest : List (List ℕ)) (d : Daemon Float)
      → handle_command o (token ∷ rest) d ≢ none
  unfolding handle_command
  handle_command-some token rest d = λ e. ground arith

  handle_cli-tokens :
      (parts : List (List ℕ)) (last : List ℕ) (d : Daemon Float)
      → All (Lacks b' ') parts
      → Lacks b' ' last
      → handle_cli o (text b' ' parts last) d ≡ handle_command o (tokens b' ' 0 parts last) d
  unfolding handle_cli
  handle_cli-tokens parts last d h k = rw (split-tokens b' ' parts last h k, handle_cli)

  handle_cli-parts :
      (parts : List (List ℕ)) (last : List ℕ) (d : Daemon Float)
      → All (Lacks b' ') parts
      → Lacks b' ' last
      → handle_cli o (text b' ' parts last) d ≡ none
      → text b' ' parts last ≡ []
  unfolding text tokens
  handle_cli-parts [] [] d h k e = refl
  handle_cli-parts [] (x ∷ xs) d h k e =
      absurd (handle_command-some (x ∷ xs) [] d (sym (handle_cli-tokens [] (x ∷ xs) d h k) ∙ e))
  handle_cli-parts (a ∷ parts) last d h k e =
      absurd (handle_command-some _ _ d (sym (handle_cli-tokens (a ∷ parts) last d h k) ∙ e))

  -- A line of the terminal gives `none`, which stands for a crash or for a `split` that has not ended,
  -- exactly if it is empty.
  pub handle_cli_blank :
      (line : List ℕ) (d : Daemon Float) → (handle_cli o line d ≡ none) ↔ (line ≡ [])
  unfolding text tokens
  handle_cli_blank line d =
      let (parts, last, h, k, e) = cut b' ' line in
      (
        λ crashed.
            e ∙ handle_cli-parts parts last d h k (sym (ap (λ l. handle_cli o l d) e) ∙ crashed),
        λ blank.
            ap (λ l. handle_cli o l d) blank
            ∙ handle_cli-tokens [] [] d tt tt
            ∙ unfold handle_command in refl,
      )
