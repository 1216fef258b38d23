-- ===== src/Bootstrap/Commands.antt =====
-- The commands and URLs that internal/bootstrap/bootstrap.go builds. base64 and text/template are
-- parameters of what uses them.
pub mod Quoting
use mini_control_action.Prelude.{
  ℕ, zero, suc, ◌-◌, [], ◌∷◌, ◌++◌, Text, codes, length, cut_prefix, is_some, ◌==◌, if◌then◌else◌,
}

abbrev script_path : Text
script_path = codes "$HOME/mcra-bootstrap.sh"

abbrev jit_path : Text
jit_path = codes "$HOME/.mcra-jit.b64"

abbrev status_path : Text
status_path = codes "$HOME/.mcra-status"

abbrev log_path : Text
log_path = codes "$HOME/mcra.log"

-- `strings.ReplaceAll(s, "'", r)`
unfoldable pub replace_quotes : Text → Text → Text
replace_quotes r [] = []
replace_quotes r (c ∷ s) = let rest = replace_quotes r s in if c == 39 then r ++ rest else c ∷ rest

-- `shellQuote`
unfoldable pub shell_quote : Text → Text
unfolding replace_quotes codes
shell_quote s = 39 ∷ (replace_quotes (codes "'\\''") s ++ 39 ∷ [])

-- `strings.ReplaceAll(s, old, new)` for an `old` that is not empty; `skip` counts what is left of an
-- occurrence that was replaced.
unfoldable pub replace_go : Text → Text → ℕ → Text → Text
unfolding cut_prefix
replace_go old new skip [] = []
replace_go old new (suc skip) (c ∷ s) = replace_go old new skip s
replace_go old new zero (c ∷ s) =
    let replaced = new ++ replace_go old new (length old - 1) s in
    let kept = c ∷ replace_go old new zero s in
    if is_some (cut_prefix old (c ∷ s)) then replaced else kept

-- `MirrorURL`
unfoldable pub mirror_url : Text → Text → Text
unfolding replace_go codes
mirror_url template version = replace_go (codes "{version}") version 0 template

-- `AssetName`
unfoldable pub asset_name : Text → Text
unfolding codes
asset_name version = codes "actions-runner-osx-arm64-" ++ (version ++ codes ".tar.gz")

-- `DefaultDownloadURL`
unfoldable pub default_download_url : Text → Text
unfolding asset_name codes
default_download_url version =
    codes "https://github.com/actions/runner/releases/download/v"
    ++ (version ++ (codes "/" ++ asset_name version))

-- `StageCommand`
unfoldable pub stage_command : (Text → Text) → Text → Text → Text
unfolding shell_quote codes
stage_command base64 script jit_config =
    codes "printf '%s' "
    ++ (shell_quote (base64 script)
        ++ (codes " | base64 -d > "
            ++ (script_path
                ++ (codes " && printf '%s' "
                    ++ (shell_quote jit_config
                        ++ (codes " > "
                            ++ (jit_path
                                ++ (codes " && chmod 700 "
                                    ++ (script_path
                                        ++ (codes " && rm -f "
                                            ++ (status_path ++ codes " && echo staged")))))))))))

-- `LaunchCommand`
unfoldable pub launch_command : Text
unfolding codes
launch_command =
    codes "nohup " ++ (script_path ++ (codes " > " ++ (log_path ++ codes " 2>&1 & echo launched")))

-- `StatusCommand`
unfoldable pub status_command : Text
unfolding codes
status_command =
    codes "cat "
    ++ (status_path
        ++ (codes " 2>/dev/null; echo '---MCRA-LOG---'; tail -c 4096 "
            ++ (log_path ++ codes " 2>/dev/null")))
