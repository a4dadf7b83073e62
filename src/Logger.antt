-- ===== src/Logger.antt =====
-- backend/include/logger.hpp and backend/src/util/logger.cpp. The stream is the bytes that are written;
-- the text of the time is that of std::put_time, an argument. The mutex makes each call one step.
use oj_vibe_coding.Auth.Session.{decimal}
use oj_vibe_coding.Base.{ℕ, [], ◌∷◌, ◌++◌, ltb, if◌then◌else◌}
use oj_vibe_coding.Base.Result.{invalid_argument, Result, ok, err}
use oj_vibe_coding.Text.{Bytes, bytes, eqb}

pub data LogLevel : Type 0 where
  debug info warning error : LogLevel

unfoldable pub parse_log_level : Bytes → Result LogLevel
parse_log_level value =
    if eqb value (bytes "debug")
    then ok debug
    else if eqb value (bytes "info")
    then ok info
    else if eqb value (bytes "warning")
    then ok warning
    else if eqb value (bytes "error")
    then ok error
    else err (invalid_argument (bytes "invalid log level"))

unfoldable pub log_level_name : LogLevel → Bytes
log_level_name debug = bytes "DEBUG"
log_level_name info = bytes "INFO"
log_level_name warning = bytes "WARNING"
log_level_name error = bytes "ERROR"

-- The order of the enum.
abbrev pub rank : LogLevel → ℕ
rank debug = 0
rank info = 1
rank warning = 2
rank error = 3

-- `std::setw(3) << std::setfill('0')`
unfoldable pub three_digits : ℕ → Bytes
three_digits n =
    if ltb n 10
    then bytes "00" ++ decimal n
    else if ltb n 100
    then bytes "0" ++ decimal n
    else decimal n

-- The line of one message, at a time with these milliseconds.
unfoldable pub log_line : Bytes → ℕ → LogLevel → Bytes → Bytes → Bytes
unfolding three_digits log_level_name
log_line timestamp milliseconds level component message =
    timestamp
    ++ bytes "."
    ++ three_digits milliseconds
    ++ bytes "Z "
    ++ log_level_name level
    ++ bytes " "
    ++ component
    ++ bytes " "
    ++ message
    ++ (10 ∷ [])

unfoldable pub log : LogLevel → Bytes → ℕ → LogLevel → Bytes → Bytes → Bytes → Bytes
unfolding log_line
log minimum_level timestamp milliseconds level component message output =
    if ltb (rank level) (rank minimum_level)
    then output
    else output ++ log_line timestamp milliseconds level component message
