-- ===== src/Hpack/Table/Static.antt =====
-- The static table of src/hpack/table.cpp in its three forms (RFC 7541, appendix A).
use chttp.Prelude.{ℕ, List, [], ◌∷◌, codes}
use chttp.Prelude.Map.{Map}
use chttp.HeaderField.{HeaderField, field}

unfoldable pub static_name_table : Map (List ℕ) ℕ
static_name_table =
    (codes ":authority", 1)
    ∷ (codes ":method", 2)
    ∷ (codes ":path", 4)
    ∷ (codes ":scheme", 6)
    ∷ (codes ":status", 8)
    ∷ (codes "accept-charset", 15)
    ∷ (codes "accept-encoding", 16)
    ∷ (codes "accept-language", 17)
    ∷ (codes "accept-ranges", 18)
    ∷ (codes "accept", 19)
    ∷ (codes "access-control-allow-origin", 20)
    ∷ (codes "age", 21)
    ∷ (codes "allow", 22)
    ∷ (codes "authorization", 23)
    ∷ (codes "cache-control", 24)
    ∷ (codes "content-disposition", 25)
    ∷ (codes "content-encoding", 26)
    ∷ (codes "content-language", 27)
    ∷ (codes "content-length", 28)
    ∷ (codes "content-location", 29)
    ∷ (codes "content-range", 30)
    ∷ (codes "content-type", 31)
    ∷ (codes "cookie", 32)
    ∷ (codes "date", 33)
    ∷ (codes "etag", 34)
    ∷ (codes "expect", 35)
    ∷ (codes "expires", 36)
    ∷ (codes "from", 37)
    ∷ (codes "host", 38)
    ∷ (codes "if-match", 39)
    ∷ (codes "if-modified-since", 40)
    ∷ (codes "if-none-match", 41)
    ∷ (codes "if-range", 42)
    ∷ (codes "if-unmodified-since", 43)
    ∷ (codes "last-modified", 44)
    ∷ (codes "link", 45)
    ∷ (codes "location", 46)
    ∷ (codes "max-forwards", 47)
    ∷ (codes "proxy-authenticate", 48)
    ∷ (codes "proxy-authorization", 49)
    ∷ (codes "range", 50)
    ∷ (codes "referer", 51)
    ∷ (codes "refresh", 52)
    ∷ (codes "retry-after", 53)
    ∷ (codes "server", 54)
    ∷ (codes "set-cookie", 55)
    ∷ (codes "strict-transport-security", 56)
    ∷ (codes "transfer-encoding", 57)
    ∷ (codes "user-agent", 58)
    ∷ (codes "vary", 59)
    ∷ (codes "via", 60)
    ∷ (codes "www-authenticate", 61)
    ∷ []

unfoldable pub static_name_value_table : Map (List ℕ × List ℕ) ℕ
static_name_value_table =
    ((codes ":authority", codes ""), 1)
    ∷ ((codes ":method", codes "GET"), 2)
    ∷ ((codes ":method", codes "POST"), 3)
    ∷ ((codes ":path", codes "/"), 4)
    ∷ ((codes ":path", codes "/index.html"), 5)
    ∷ ((codes ":scheme", codes "http"), 6)
    ∷ ((codes ":scheme", codes "https"), 7)
    ∷ ((codes ":status", codes "200"), 8)
    ∷ ((codes ":status", codes "204"), 9)
    ∷ ((codes ":status", codes "206"), 10)
    ∷ ((codes ":status", codes "304"), 11)
    ∷ ((codes ":status", codes "400"), 12)
    ∷ ((codes ":status", codes "404"), 13)
    ∷ ((codes ":status", codes "500"), 14)
    ∷ ((codes "accept-charset", codes ""), 15)
    ∷ ((codes "accept-encoding", codes "gzip, deflate"), 16)
    ∷ ((codes "accept-language", codes ""), 17)
    ∷ ((codes "accept-ranges", codes ""), 18)
    ∷ ((codes "accept", codes ""), 19)
    ∷ ((codes "access-control-allow-origin", codes ""), 20)
    ∷ ((codes "age", codes ""), 21)
    ∷ ((codes "allow", codes ""), 22)
    ∷ ((codes "authorization", codes ""), 23)
    ∷ ((codes "cache-control", codes ""), 24)
    ∷ ((codes "content-disposition", codes ""), 25)
    ∷ ((codes "content-encoding", codes ""), 26)
    ∷ ((codes "content-language", codes ""), 27)
    ∷ ((codes "content-length", codes ""), 28)
    ∷ ((codes "content-location", codes ""), 29)
    ∷ ((codes "content-range", codes ""), 30)
    ∷ ((codes "content-type", codes ""), 31)
    ∷ ((codes "cookie", codes ""), 32)
    ∷ ((codes "date", codes ""), 33)
    ∷ ((codes "etag", codes ""), 34)
    ∷ ((codes "expect", codes ""), 35)
    ∷ ((codes "expires", codes ""), 36)
    ∷ ((codes "from", codes ""), 37)
    ∷ ((codes "host", codes ""), 38)
    ∷ ((codes "if-match", codes ""), 39)
    ∷ ((codes "if-modified-since", codes ""), 40)
    ∷ ((codes "if-none-match", codes ""), 41)
    ∷ ((codes "if-range", codes ""), 42)
    ∷ ((codes "if-unmodified-since", codes ""), 43)
    ∷ ((codes "last-modified", codes ""), 44)
    ∷ ((codes "link", codes ""), 45)
    ∷ ((codes "location", codes ""), 46)
    ∷ ((codes "max-forwards", codes ""), 47)
    ∷ ((codes "proxy-authenticate", codes ""), 48)
    ∷ ((codes "proxy-authorization", codes ""), 49)
    ∷ ((codes "range", codes ""), 50)
    ∷ ((codes "referer", codes ""), 51)
    ∷ ((codes "refresh", codes ""), 52)
    ∷ ((codes "retry-after", codes ""), 53)
    ∷ ((codes "server", codes ""), 54)
    ∷ ((codes "set-cookie", codes ""), 55)
    ∷ ((codes "strict-transport-security", codes ""), 56)
    ∷ ((codes "transfer-encoding", codes ""), 57)
    ∷ ((codes "user-agent", codes ""), 58)
    ∷ ((codes "vary", codes ""), 59)
    ∷ ((codes "via", codes ""), 60)
    ∷ ((codes "www-authenticate", codes ""), 61)
    ∷ []

unfoldable pub static_entry_table : List HeaderField
static_entry_table =
    field (codes ":authority") (codes "")
    ∷ field (codes ":method") (codes "GET")
    ∷ field (codes ":method") (codes "POST")
    ∷ field (codes ":path") (codes "/")
    ∷ field (codes ":path") (codes "/index.html")
    ∷ field (codes ":scheme") (codes "http")
    ∷ field (codes ":scheme") (codes "https")
    ∷ field (codes ":status") (codes "200")
    ∷ field (codes ":status") (codes "204")
    ∷ field (codes ":status") (codes "206")
    ∷ field (codes ":status") (codes "304")
    ∷ field (codes ":status") (codes "400")
    ∷ field (codes ":status") (codes "404")
    ∷ field (codes ":status") (codes "500")
    ∷ field (codes "accept-charset") (codes "")
    ∷ field (codes "accept-encoding") (codes "gzip, deflate")
    ∷ field (codes "accept-language") (codes "")
    ∷ field (codes "accept-ranges") (codes "")
    ∷ field (codes "accept") (codes "")
    ∷ field (codes "access-control-allow-origin") (codes "")
    ∷ field (codes "age") (codes "")
    ∷ field (codes "allow") (codes "")
    ∷ field (codes "authorization") (codes "")
    ∷ field (codes "cache-control") (codes "")
    ∷ field (codes "content-disposition") (codes "")
    ∷ field (codes "content-encoding") (codes "")
    ∷ field (codes "content-language") (codes "")
    ∷ field (codes "content-length") (codes "")
    ∷ field (codes "content-location") (codes "")
    ∷ field (codes "content-range") (codes "")
    ∷ field (codes "content-type") (codes "")
    ∷ field (codes "cookie") (codes "")
    ∷ field (codes "date") (codes "")
    ∷ field (codes "etag") (codes "")
    ∷ field (codes "expect") (codes "")
    ∷ field (codes "expires") (codes "")
    ∷ field (codes "from") (codes "")
    ∷ field (codes "host") (codes "")
    ∷ field (codes "if-match") (codes "")
    ∷ field (codes "if-modified-since") (codes "")
    ∷ field (codes "if-none-match") (codes "")
    ∷ field (codes "if-range") (codes "")
    ∷ field (codes "if-unmodified-since") (codes "")
    ∷ field (codes "last-modified") (codes "")
    ∷ field (codes "link") (codes "")
    ∷ field (codes "location") (codes "")
    ∷ field (codes "max-forwards") (codes "")
    ∷ field (codes "proxy-authenticate") (codes "")
    ∷ field (codes "proxy-authorization") (codes "")
    ∷ field (codes "range") (codes "")
    ∷ field (codes "referer") (codes "")
    ∷ field (codes "refresh") (codes "")
    ∷ field (codes "retry-after") (codes "")
    ∷ field (codes "server") (codes "")
    ∷ field (codes "set-cookie") (codes "")
    ∷ field (codes "strict-transport-security") (codes "")
    ∷ field (codes "transfer-encoding") (codes "")
    ∷ field (codes "user-agent") (codes "")
    ∷ field (codes "vary") (codes "")
    ∷ field (codes "via") (codes "")
    ∷ field (codes "www-authenticate") (codes "")
    ∷ []
