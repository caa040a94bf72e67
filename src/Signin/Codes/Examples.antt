-- ===== src/Signin/Codes/Examples.antt =====
-- One address with one code, on a hub where accounts are their addresses' lengths.
use cuckoo.Base.{ℕ, ◌≡◌, ◌≢◌, refl, none, some, Option, List, [], ◌∷◌, arith, length}
use cuckoo.Base.Text.{
  Text, codes, trim_space, trim_right, trim_left, is_space, byte_len, width, is_valid,
  contains_rune, contains_any,
}
use cuckoo.Domain.Errors.{ok}
use cuckoo.Signin.Codes.{
  SignInCode, new_code, get_latest_sign_in_code, normalize_email, validate_device_name, Accounts,
  Store, account_for, sign_in, verify,
}
use cuckoo.Signin.Codes.Access.{
  Call, call, calls, Matched, IsWrong, verify_sound, verify_once, verify_guesses,
}

abbrev accounts : Accounts
accounts = record {
  State = List Text;
  identity = λ email st. none;
  create_user = λ name st. ok (name ∷ st, 7);
  create_identity = λ user email st. st;
  welcome = λ user st. ok st;
  get_user = λ user st. ok tt;
}

abbrev same_text : Text → Text
same_text t = t

abbrev parsed : Text → Option Text
parsed t = some t

abbrev hashed : ℕ → Text → ℕ
hashed i code = length code

abbrev address : Text
address = codes "p@example.com"

abbrev sent_code : SignInCode
sent_code = new_code 100 1 address 6

abbrev store : Store accounts
store = record { sign_in_codes = sent_code ∷ []; sessions = []; accounts = [] }

abbrev right : Call
right = record {
  now = 200;
  session = 11;
  token = 12;
  guess = codes "123456";
  device = codes "phone";
}

abbrev wrong : Call
wrong = record right { guess = codes "12345" }

signed : (call accounts same_text parsed hashed address right store).1 ≡ ok 7
unfolding verify normalize_email trim_space trim_right trim_left is_space byte_len width is_valid
    contains_rune validate_device_name contains_any get_latest_sign_in_code sign_in account_for
signed = refl

address_named : normalize_email same_text parsed address ≡ ok address
unfolding normalize_email trim_space trim_right trim_left is_space byte_len width is_valid
    contains_rune
address_named = refl

accepted : validate_device_name (codes "phone") ≡ ok (codes "phone")
unfolding validate_device_name is_valid trim_space trim_right trim_left is_space contains_any
accepted = refl

latest : get_latest_sign_in_code address (sent_code ∷ []) ≡ some sent_code
unfolding get_latest_sign_in_code
latest = refl

verify_sound_example :
    (email : Text) × (row : SignInCode) × (normalize_email same_text parsed address ≡ ok email)
    × (get_latest_sign_in_code email store.sign_in_codes ≡ some row)
    × Matched hashed 200 (codes "123456") row (
        get_latest_sign_in_code email
          (call accounts same_text parsed hashed address right store).0.sign_in_codes)
verify_sound_example = verify_sound accounts same_text parsed hashed address right store 7 signed

verify_once_example :
    (call accounts same_text parsed hashed address right
      (call accounts same_text parsed hashed address right store).0).1
    ≢ ok 7
verify_once_example =
    verify_once accounts same_text parsed hashed address right right store 7 7 signed

short : hashed 1 (trim_space (codes "12345")) ≡ 5
unfolding trim_space trim_right trim_left is_space
short = refl

wrong-IsWrong : IsWrong accounts same_text parsed hashed address sent_code wrong
wrong-IsWrong = ((λ e. omega (arith, short, e)), omega arith, (codes "phone", accepted))

verify_guesses_example :
    (call accounts same_text parsed hashed address right (
      calls accounts same_text parsed hashed address
        (wrong ∷ wrong ∷ wrong ∷ wrong ∷ wrong ∷ [])
        store)).1
    ≢ ok 7
verify_guesses_example =
    verify_guesses accounts same_text parsed hashed address
      (wrong ∷ wrong ∷ wrong ∷ wrong ∷ wrong ∷ []) store address sent_code address_named latest
      (wrong-IsWrong, (wrong-IsWrong, (wrong-IsWrong, (wrong-IsWrong, (wrong-IsWrong, tt)))))
      (omega arith) right 7
