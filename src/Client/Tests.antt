-- ===== src/Client/Tests.antt =====
-- Instances of the theorems on the client: an archive with one account and one friend, and a client
-- that hosts two taverns.
use accord_rfc.Base.{
  ℕ, zero, suc, ◌-◌, ◌≡◌, refl, ap, ◌∙◌, arith, true, false, not, List, [], ◌∷◌, ◌++◌, length,
  length-append, take, take-append, none, some, Bytes, ◌==◌,
}
use accord_rfc.Client.Records.{read_records}
use accord_rfc.Client.Framing.{Split, read_records-Split}
use accord_rfc.Client.Sealing.{Cipher, App}
use accord_rfc.Client.History.{ArchivedMessage, Json, load}
use accord_rfc.Client.AtRest.{AtRest}
use accord_rfc.Client.Disk.{Event, recorded, restored, set_encrypt_at_rest, run, run-AtRest}
use accord_rfc.Client.Log.{message, logged, Honest}
use accord_rfc.Client.Loading.{load-run}
use accord_rfc.Client.Taverns.{Hosting, System}
use accord_rfc.Client.Ports.{Sound}
use accord_rfc.Client.Hosting.{Call, create, resume, delete, stop, serve, serve-Sound}

abbrev records : List (ℕ × Bytes)
records = (1, 7 ∷ 8 ∷ []) ∷ (0, []) ∷ []

abbrev torn : Bytes
torn = 0 ∷ 1 ∷ 0 ∷ 0 ∷ 0 ∷ 7 ∷ 9 ∷ []

read_records-Split_example : Split (read_records torn) torn
read_records-Split_example = read_records-Split torn (
  omega arith,
  (omega arith, (omega arith, (omega arith, (omega arith, (omega arith, (omega arith, tt)))))),
)

-- A cipher that adds a tag and hides nothing.
abbrev tag : Bytes
tag = 0 ∷ 0 ∷ 0 ∷ 0 ∷ 0 ∷ 0 ∷ 0 ∷ 0 ∷ 0 ∷ 0 ∷ 0 ∷ 0 ∷ 0 ∷ 0 ∷ 0 ∷ 0 ∷ []

abbrev tagging : Cipher
tagging = record {
  encrypt = λ key nonce plaintext. some (plaintext ++ tag);
  decrypt = λ key nonce ciphertext. some (take (length ciphertext - 16) ciphertext);
}

tagging-Honest : Honest tagging
tagging-Honest = record {
  seals = λ key nonce plaintext k n. (
    plaintext ++ tag,
    refl,
    ap (λ m. some (take m (plaintext ++ tag))) (size plaintext)
        ∙ ap some (take-append plaintext tag),
    length-append plaintext tag,
  );
}
  where
    size : (plaintext : Bytes) → length (plaintext ++ tag) - 16 ≡ length plaintext
    size plaintext = omega (arith, length-append plaintext tag)

abbrev hello : ArchivedMessage
hello = message "club" "bob" "hello" 5

abbrev one_message : Json
one_message = record { to_vec = λ m. some (123 ∷ 125 ∷ []); from_slice = λ bytes. some hello }

abbrev zeros : ℕ → Bytes
zeros zero = []
zeros (suc n) = 0 ∷ zeros n

abbrev app : App
app = record {
  files = λ user group. none;
  encrypt_at_rest = false;
  dek = some (zeros 32);
  secret = some (zeros 32);
  random = λ draw n. zeros n;
  draws = 0;
  dirty = [];
}

abbrev events : List Event
events =
    recorded "ann" "club" "bob" "hello" 5
    ∷ set_encrypt_at_rest true
    ∷ recorded "bob" "club" "bob" "hello" 5
    ∷ []

run-AtRest_example : AtRest tagging one_message (
    run tagging one_message
      (restored "ann" ("hist/old" ∷ []) (λ name. some (123 ∷ 125 ∷ [])) ∷ events)
      app)
run-AtRest_example =
    run-AtRest tagging one_message
      (restored "ann" ("hist/old" ∷ []) (λ name. some (123 ∷ 125 ∷ [])) ∷ events) app
      λ user group bytes h. cc

load-run_example :
    (load tagging one_message "ann" "club" (run tagging one_message events app)).0
    ≡ logged "ann" "club" events
load-run_example =
    load-run tagging one_message (zeros 32) "ann" "club" events app tagging-Honest
      (record { cached = refl; size = refl; fills = λ n. refl }) refl
      (
        (123 ∷ 125 ∷ [], refl, refl, omega arith),
        (tt, ((123 ∷ 125 ∷ [], refl, refl, omega arith), tt)),
      )

abbrev no_taverns : Hosting
no_taverns = record { running = []; metas = []; max_hosted_taverns = 16 }

no_taverns-Sound : Sound no_taverns
no_taverns-Sound = record { apart = λ i j port a b. cc; in_range = λ i port a. cc }

abbrev system : System
system = record { port_is_free = λ p. not (p == 50053); starts = λ meta. true; saves = true }

abbrev calls : List Call
calls =
    create system "a" "first"
    ∷ create system "b" "second"
    ∷ stop
    ∷ resume system
    ∷ delete system "a"
    ∷ create system "c" "third"
    ∷ []

serve-Sound_example : Sound (serve calls no_taverns)
serve-Sound_example = serve-Sound calls no_taverns no_taverns-Sound
