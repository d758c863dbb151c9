-- ===== src/Tests/Phones.antt =====
-- Spellings of one phone number.
use agyary.Common.{
  ◌≡◌, refl, codes, is_space, drop_while, drop_end, strip, remove_all, starts_with, after_prefix,
}
use agyary.Phone.{is_separator, is_zero_digit, trim_trunk, normalize_phone}
use agyary.Phone.Normal.{normalize_phone-normalize_phone}

spelling_run : normalize_phone (codes " +91 (0)98765-43210") ≡ codes "+919876543210"
unfolding normalize_phone trim_trunk is_separator is_zero_digit is_space drop_while drop_end strip
    remove_all starts_with after_prefix
spelling_run = refl

normalize_phone-normalize_phone_example :
    normalize_phone (normalize_phone (codes " +91 (0)98765-43210"))
    ≡ normalize_phone (codes " +91 (0)98765-43210")
normalize_phone-normalize_phone_example =
    normalize_phone-normalize_phone (codes " +91 (0)98765-43210")
