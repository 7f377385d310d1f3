-- ===== src/Settings/Entry.antt =====
-- The hook entries of crates/memgarden-cli/src/settings.rs, and its errors.
use memgarden.Prelude.{ℕ, ◌+◌, ◌/◌, ◌%◌, Bool, true, false, List, [], ◌∷◌, ◌++◌, ltb, if◌then◌else◌}
use memgarden.Prelude.Text.{Text, codes}

pub record Entry : Type 0 where
  pub event : Text
  pub sub : Text
  pub timeout : ℕ
  pub is_async : Bool
  pub status_message : Text

abbrev pub entries : List Entry
entries =
    record {
      event = codes "SessionStart";
      sub = codes "session-start";
      timeout = 5;
      is_async = false;
      status_message = codes "memgarden: session start";
    }
    ∷ record {
      event = codes "UserPromptSubmit";
      sub = codes "recall";
      timeout = 10;
      is_async = false;
      status_message = codes "memgarden: recalling";
    }
    ∷ record {
      event = codes "Stop";
      sub = codes "retain";
      timeout = 30;
      is_async = true;
      status_message = codes "memgarden: retaining";
    }
    ∷ record {
      event = codes "SessionEnd";
      sub = codes "session-end";
      timeout = 5;
      is_async = false;
      status_message = codes "memgarden: session end";
    }
    ∷ []

-- Without the messages of the parser.
pub data SettingsError : Type 0 where
  parse not_an_object would_corrupt : SettingsError
  unlocatable wrong_type duplicated : Text → SettingsError
  residual : ℕ → SettingsError

pub data Result (A : Type 0) : Type 0 where
  ok : A → Result A
  err : SettingsError → Result A

-- A number below 100, in decimal.
unfoldable pub decimal : ℕ → Text
decimal n = if ltb n 10 then (48 + n) ∷ [] else (48 + n / 10) ∷ (48 + n % 10) ∷ []

-- `command` is serde_json's spelling of the binary's path, with its quotes.
unfoldable pub group_line : Entry → Text → Text
unfolding decimal
group_line entry command =
    codes "{\"hooks\":[{\"type\":\"command\",\"command\":"
    ++ (command
        ++ (codes ",\"args\":[\"hook\",\""
            ++ (entry.sub
                ++ (codes "\"],\"timeout\":"
                    ++ (decimal entry.timeout
                        ++ ((if entry.is_async then codes ",\"async\":true" else [])
                            ++ (codes ",\"statusMessage\":\""
                                ++ (entry.status_message ++ codes "\"}]}"))))))))
