-- ===== src/Whatsapp/Message.antt =====
-- `parseWhatsAppMessage` of zongo/libs/whatsapp/src/whatsapp.service.ts. The normal form of a text and
-- the test for whole words are those of the runtime.
use zongo_v.Prelude.{
  Bool, true, false, Option, List, [], ◌∷◌, String, str_eq, get_or, if◌then◌else◌,
}
use zongo_v.Db.Rows.{ChatIntent, Locale}

pub record TextReader : Type 0 where
  -- `text.normalize('NFKD').replace(…).toLowerCase().replace(…).trim()`
  pub normalize : String → String
  -- `/\b(a|b|…)\b/.test(text)`
  pub has_word : List String → String → Bool

pub record ParsedMessage : Type 0 where
  pub intent : ChatIntent
  pub locale : Locale
  pub consent_given : Bool

abbrev pub french_words : List String
french_words = "oui" ∷ "envoyer" ∷ "annuler" ∷ "statut" ∷ "aide" ∷ "j accepte" ∷ []

abbrev pub swahili_words : List String
swahili_words = "ndiyo" ∷ "tuma" ∷ "ghairi" ∷ "hali" ∷ "msaada" ∷ "nakubali" ∷ []

abbrev pub cancel_words : List String
cancel_words = "cancel" ∷ "annuler" ∷ "stop" ∷ "ghairi" ∷ "kata" ∷ []

abbrev pub status_words : List String
status_words = "status" ∷ "statut" ∷ "check" ∷ "suivi" ∷ "hali" ∷ "where is my transfer" ∷ []

abbrev pub consent_words : List String
consent_words = "yes" ∷ "oui" ∷ "ndiyo" ∷ "agree" ∷ "j accepte" ∷ "nakubali" ∷ []

abbrev pub start_words : List String
start_words = "send" ∷ "transfer" ∷ "envoyer" ∷ "tuma" ∷ "start" ∷ []

abbrev pub help_words : List String
help_words = "help" ∷ "aide" ∷ "msaada" ∷ []

abbrev pub locale_of : TextReader → String → Locale
locale_of reader text =
    if reader.has_word french_words text
    then Locale.fr
    else (if reader.has_word swahili_words text then Locale.sw else Locale.en)

abbrev pub with_intent : ChatIntent → Locale → ParsedMessage
with_intent intent locale = record { intent = intent; locale = locale; consent_given = false }

abbrev pub read_intent : TextReader → String → Locale → ParsedMessage
read_intent reader text locale =
    if reader.has_word cancel_words text
    then with_intent ChatIntent.cancel locale
    else (if reader.has_word status_words text
        then with_intent ChatIntent.status locale
        else (if reader.has_word consent_words text
            then record { intent = ChatIntent.consent; locale = locale; consent_given = true }
            else (if reader.has_word start_words text
                then with_intent ChatIntent.start_transfer locale
                else (if reader.has_word help_words text
                    then with_intent ChatIntent.help locale
                    else with_intent ChatIntent.unknown locale))))

unfoldable pub parse_message : TextReader → Option String → ParsedMessage
parse_message reader text =
    let normal = reader.normalize (get_or text "") in
    if str_eq normal ""
    then with_intent ChatIntent.unknown Locale.unknown
    else read_intent reader normal (locale_of reader normal)
