-- ===== src/Tests/Settings.antt =====
-- Runs of the theorems about the options of the client.
use copilot_sdk_swift.Prelude.{ℕ, ◌≤◌, String, ◌≡◌, ◌⊎◌, refl, true, false, none, some}
use copilot_sdk_swift.Client.State.{Client}
use copilot_sdk_swift.Client.Options.{
  ClientOptions, is_number, digits_value, address_text, parse_cli_url, new_client,
}
use copilot_sdk_swift.Client.Options.Checked.{parse_cli_url-bounds}

abbrev local : String
local = "localhost"

abbrev large : ℕ
large = 99999

-- A port that does not exist is let through in this form.
parse_cli_url-bounds_example :
    ((is_number (address_text "http://99999") ≡ true)
      × (local ≡ "localhost")
      × (large ≡ digits_value 0 (address_text "http://99999")))
    ⊎ ((1 ≤ large) × (large ≤ 65535))
unfolding parse_cli_url
parse_cli_url-bounds_example = parse_cli_url-bounds "http://99999" local large refl

abbrev options : ClientOptions
options = record {
  cli_url = some "host:8080";
  cli_path = none;
  use_stdio = none;
  is_child_process = false;
  github_token = none;
  use_logged_in_user = none;
  session_fs = none;
  auto_start = none;
}

abbrev made : Client
made = new_client options (some ("host", 8080))
