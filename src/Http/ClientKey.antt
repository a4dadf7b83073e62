-- ===== src/Http/ClientKey.antt =====
-- `clientKey` of backend/src/http/rate_limit.cpp: which bucket a request counts against.
use oj_vibe_coding.Base.{if◌then◌else◌, is_empty}
use oj_vibe_coding.Text.{Bytes, bytes}
use oj_vibe_coding.Http.Message.{Request, value_or_empty}
use oj_vibe_coding.Http.Cookie.{skip_whitespace, drop_trailing, split_at}

-- The part of X-Forwarded-For before its first comma, trimmed.
unfoldable pub first_forwarded : Bytes → Bytes
first_forwarded xff = let (first, _) = split_at b',' xff in drop_trailing (skip_whitespace first)

unfoldable pub client_key : Request → Bytes
client_key req =
    let first = first_forwarded (value_or_empty (req.header (bytes "X-Forwarded-For"))) in
    if is_empty first then req.remote_addr else first
