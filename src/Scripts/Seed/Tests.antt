-- ===== src/Scripts/Seed/Tests.antt =====
-- The statement for a user name with a quote in it.
use oj_vibe_coding.Scripts.Seed.{admin_delete}
use oj_vibe_coding.Scripts.Seed.Laws.{read_literal, admin_delete-literal}
use oj_vibe_coding.Base.{◌≡◌, false, some, [], ◌++◌}
use oj_vibe_coding.Text.{Bytes, bytes}

admin_delete-literal_example :
    (literal : Bytes) × (admin_delete (bytes "o'neil")
      ≡ bytes "DELETE FROM users WHERE username = '" ++ literal)
    × (read_literal false literal ≡ some (bytes "o'neil", []))
admin_delete-literal_example = admin_delete-literal (bytes "o'neil")
