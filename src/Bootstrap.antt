-- ===== src/Bootstrap.antt =====
-- internal/bootstrap/bootstrap.go: the status that the VM reports, and the commands that run in it.
pub mod Commands
use mini_control_action.Prelude.{
  ℕ, ◌≡◌, refl, Bool, true, false, not, Option, none, some, List, [], ◌∷◌, ◌++◌, Text, ℤ, pos,
  codes, is_lit, is_empty, atoi, trim_space, cut_prefix, cut_text, has_suffix, ◌==◌, if◌then◌else◌,
}

pub record Status : Type 0 where
  pub phase : Text
  pub exit : ℤ
  pub has_exit : Bool
  pub log_tail : Text

abbrev pub no_status : Status
no_status = record { phase = []; exit = pos 0; has_exit = false; log_tail = [] }

-- `Launched`, `Failed` and `Done`
unfoldable pub launched : Status → Bool
launched s = not (is_empty s.phase)

unfoldable pub failed : Status → Bool
failed s = has_suffix s.phase (codes "_failed")

unfoldable pub done : Status → Bool
done s = is_lit s.phase "done"

-- The lines that a bufio.Scanner gives: what stands between newlines, but for an empty last one.
-- (It also drops a carriage return at a line's end, which the trimming after it would drop.)
unfoldable pub scan_lines : Text → Text → List Text
scan_lines [] [] = []
scan_lines (c ∷ line) [] = (c ∷ line) ∷ []
scan_lines line (c ∷ s) =
    let ended = line ∷ scan_lines [] s in
    let on = scan_lines (line ++ c ∷ []) s in if c == 10 then ended else on

unfoldable pub read_phase : Text → Status → Status
read_phase line st = elim (cut_prefix (codes "PHASE=") line) [
  | none ↦ st
  | some v ↦ record st { phase = v }
]

abbrev set_exit : Status → Option ℤ → Status
set_exit st none = st
set_exit st (some n) = record st { exit = n; has_exit = true }

unfoldable pub read_exit : Text → Status → Status
read_exit line st = elim (cut_prefix (codes "EXIT=") line) [
  | none ↦ st
  | some v ↦ set_exit st (atoi v)
]

-- The loop of `ParseStatus` over the lines.
unfoldable pub read_lines : List Text → Status → Status
unfolding read_phase read_exit
read_lines [] st = st
read_lines (raw ∷ lines) st =
    let line = trim_space raw in read_lines lines (read_exit line (read_phase line st))

-- `ParseStatus`
unfoldable pub parse_status : Text → Status
unfolding scan_lines read_lines cut_text trim_space
parse_status out = elim (cut_text (codes "---MCRA-LOG---") out) [
  | none ↦ read_lines (scan_lines [] out) no_status
  | some (head, tail) ↦
      read_lines (scan_lines [] head) (record no_status { log_tail = trim_space tail })
]

parse_status_runs :
    parse_status (codes "PHASE=done\nEXIT=3\n---MCRA-LOG---\n bye\n")
    ≡ record { phase = codes "done"; exit = pos 3; has_exit = true; log_tail = codes "bye" }
unfolding parse_status codes cut_prefix atoi
parse_status_runs = refl
