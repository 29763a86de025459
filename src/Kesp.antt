-- ===== src/Kesp.antt =====
-- kedis_python/parser.py: the replies of the server, as the values that handlers return and as the
-- values that a client decodes.
pub mod Encode
pub mod Decode
pub mod Lines
pub mod RoundTrip
pub mod Elements
pub mod Accepts
pub mod ErrorLine
pub mod Whole
pub mod Within
pub mod Extent
pub mod Chunks
pub mod Chain
pub mod Pieces
use kedis_python.Prelude.{◌*◌, ℕ, Bool, Text, ℤ}

-- What a handler returns. `text true` is a `BulkString`, `text false` any other `str`; a list, set or
-- tuple is its elements in order; a key of a dict is the `str()` of it; `other` is any other type.
mutual
  pub data Data : Type 0 where
    nil other : Data
    bool : Bool → Data
    int : ℤ → Data
    text : Bool → Text → Data
    array : Items → Data
    dict : Fields → Data

  pub data Items : Type 0 where
    no_items : Items
    item : Data → Items → Items

  pub data Fields : Type 0 where
    no_fields : Fields
    field : Text → Data → Fields → Fields

-- What `KESPDecoder.decode` returns: None, int, Status, ErrorReply, LegacyError, BulkString, list.
mutual
  pub data Decoded : Type 0 where
    nothing : Decoded
    number : ℤ → Decoded
    status error legacy bulk : Text → Decoded
    list : Decodeds → Decoded

  pub data Decodeds : Type 0 where
    end : Decodeds
    more : Decoded → Decodeds → Decodeds

-- The whole-reply budgets: elements left, payload bytes left.
pub record Budget : Type 0 where
  pub elements : ℕ
  pub payload : ℕ

-- The limits of `KESPDecoder`.
abbrev pub max_depth : ℕ
max_depth = 32

abbrev pub max_line : ℕ
max_line = 64 * 1024

abbrev pub full_budget : Budget
full_budget = record { elements = 4194304; payload = 1024 * 1024 * 1024 }
