-- ===== src/Tests/Failures.antt =====
-- Runs of the error mapping.
use liberated_claude_code.Prelude.{◌≡◌, false, some}
use liberated_claude_code.Text.{Text, codes}
use liberated_claude_code.Sse.Tools.{is_empty}
use liberated_claude_code.Errors.{read_timeout, get_user_facing_error_message}
use liberated_claude_code.Errors.Mapped.{is_empty-get_user_facing_error_message}

abbrev same : Text → Text
same s = s

is_empty-get_user_facing_error_message_example :
    is_empty (get_user_facing_error_message (some (codes "60")) (read_timeout (codes "  "))) ≡ false
is_empty-get_user_facing_error_message_example =
    is_empty-get_user_facing_error_message (some (codes "60")) (read_timeout (codes "  "))
