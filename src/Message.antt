-- ===== src/Message.antt =====
-- bryllite-core/message.inl: the identifiers and the header of a message, class message, and the
-- size that the compiler gives a message class. A char or a byte is its code. A char array of a
-- message is a list of its length; std::string is the list of its characters.
pub mod Ids
pub mod Classes
pub mod Layout
pub mod Carried
pub mod Common
pub mod NodeMessages
pub mod Sizes
pub mod Objects
pub mod Text
pub mod Indices
use bcp_concept_prototype.Prelude.{
  ℕ, zero, suc, ◌+◌, ◌*◌, ◌-◌, ◌%◌, ◌^◌, Bool, ◌&&◌, List, [], ◌∷◌, Option, none, some, ◌==◌, ltb,
  leb, if◌then◌else◌, get_or, replicate,
}

-- max packet size
abbrev pub max_message_length : ℕ
max_message_length = 64 * 1024

-- the values of an unsigned short and of a size_t
abbrev pub short : ℕ → ℕ
short n = n % 2 ^ 16

abbrev pub size_of_word : ℕ → ℕ
size_of_word n = n % 2 ^ 64

-- class message_header
pub record MessageHeader : Type 0 where
  pub signature : List ℕ
  pub size : ℕ
  pub msgid : ℕ

-- "BRC" with its terminator
abbrev pub brc : List ℕ
brc = 66 ∷ 82 ∷ 67 ∷ 0 ∷ []

-- sizeof( message_header ): char[4], size_t and unsigned short, packed
abbrev pub header_size : ℕ
header_size = 4 + 8 + 2

unfoldable pub message_header : ℕ → ℕ → MessageHeader
message_header msgid size = record {
  signature = brc;
  size = size_of_word size;
  msgid = short msgid;
}

-- message_header( msgid ) and message_header()
unfoldable pub header_of : ℕ → MessageHeader
unfolding message_header
header_of msgid = message_header msgid header_size

unfoldable pub null_header : MessageHeader
unfolding message_header
null_header = message_header 0 header_size

unfoldable pub set_msgid : ℕ → MessageHeader → MessageHeader
set_msgid msgid h = record h { msgid = short msgid }

unfoldable pub set_size : ℕ → MessageHeader → MessageHeader
set_size size h = record h { size = size_of_word size }

unfoldable pub payload_size : MessageHeader → ℕ
payload_size h = if ltb header_size h.size then h.size - header_size else 0

unfoldable pub valid : MessageHeader → Bool
valid h =
    (get_or h.signature 0 0 == 66
      && get_or h.signature 1 0 == 82
      && get_or h.signature 2 0 == 67
      && get_or h.signature 3 1 == 0)
    && (leb header_size h.size && leb h.size max_message_length)

-- memset( target, 0, length )
abbrev pub memset_zero : ℕ → List ℕ
memset_zero length = replicate length 0

-- memcpy( target, source, n ); outside the arrays nothing is copied
unfoldable pub memcpy : List ℕ → List ℕ → ℕ → List ℕ
memcpy target source zero = target
memcpy [] source (suc n) = []
memcpy (t ∷ target) [] (suc n) = t ∷ target
memcpy (t ∷ target) (s ∷ source) (suc n) = s ∷ memcpy target source n

-- message::copy_string; what the target held is lost
unfoldable pub copy_string : ℕ → List ℕ → ℕ → List ℕ
unfolding memcpy
copy_string target_length source source_length =
    memcpy (memset_zero target_length) source
      (if ltb source_length target_length then source_length else target_length)

-- std::string( char* ): the characters before the first zero; none where the array holds no zero,
-- so that the constructor reads past its end
unfoldable pub c_string : List ℕ → Option (List ℕ)
c_string [] = none
c_string (c ∷ cs) =
    let rest = c_string cs in
    if c == 0 then some [] else elim rest [ none ↦ none | some s ↦ some (c ∷ s) ]
