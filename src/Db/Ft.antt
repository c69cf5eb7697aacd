-- ===== src/Db/Ft.antt =====
-- `enum field_type` of db/db.h.
use fw.Base.{ℕ}

abbrev pub end : ℕ
end = 0

abbrev pub id : ℕ
id = 1

abbrev pub prev : ℕ
prev = 2

abbrev pub user : ℕ
user = 3

abbrev pub email : ℕ
email = 4

abbrev pub pw : ℕ
pw = 5

abbrev pub hotp_secret : ℕ
hotp_secret = 6

abbrev pub hotp_counter : ℕ
hotp_counter = 7

abbrev pub totp_secret : ℕ
totp_secret = 8

abbrev pub comment : ℕ
comment = 9

abbrev pub pw2 : ℕ
pw2 = 10

abbrev pub dir : ℕ
dir = 11
