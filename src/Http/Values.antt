-- ===== src/Http/Values.antt =====
-- http/src/module.cpp: what is read from the values of a script.
use koya_plugins.Base.{
  ℤ, pos, ◌-◌, Option, none, some, List, [], ◌∷◌, Bytes, codes, is_empty, if◌then◌else◌, leb, ◌&&◌,
  ◌||◌, take, drop, length, bytes_eq,
}
use koya_plugins.Http.Types.{Method, get, post, patch, put, delete, MultipartPart}

-- A value that is asked for its bytes: an ArrayBuffer, an object with a buffer, an offset and a length,
-- where `none` is a number that cannot be read, and any other value with its text, where there is one.
pub data BodyValue : Type 0 where
  undefined null : BodyValue
  array_buffer : Bytes → BodyValue
  view : (underlying : Bytes) (byte_offset byte_length : Option ℤ) → BodyValue
  other : Option Bytes → BodyValue

-- The bytes of a view that lies within its buffer.
pub view_bytes : Bytes → Option ℤ → Option ℤ → Option Bytes
view_bytes underlying (some (pos offset)) (some (pos size)) =
    if leb offset (length underlying) && leb size (length underlying - offset)
    then some (take size (drop offset underlying))
    else none
view_bytes underlying offset size = none

-- `none` if the function gives false.
unfoldable pub jsvalue_to_body : BodyValue → Option Bytes
unfolding view_bytes
jsvalue_to_body undefined = some []
jsvalue_to_body null = some []
jsvalue_to_body (array_buffer bytes) = some bytes
jsvalue_to_body (view underlying offset size) = view_bytes underlying offset size
jsvalue_to_body (other text) = text

-- An item of an array: the texts of its name, file name and content type, of which the last two may be
-- undefined, and its body.
pub data PartValue : Type 0 where
  not_object : PartValue
  part : (name : Bytes) (filename content_type : Option Bytes) (body : BodyValue) → PartValue

pub data MultipartValue : Type 0 where
  absent not_array bad_length : MultipartValue
  array : List PartValue → MultipartValue

abbrev text_or_empty : Option Bytes → Bytes
text_or_empty none = []
text_or_empty (some text) = text

abbrev pub read_part : PartValue → Option MultipartPart
read_part not_object = none
read_part (part name filename content_type body) = elim (jsvalue_to_body body) [
  | none ↦ none
  | some bytes ↦
      if is_empty name
      then none
      else some (record {
        name = name;
        filename = text_or_empty filename;
        content_type = text_or_empty content_type;
        body = bytes;
      })
]

pub read_parts : List PartValue → Option (List MultipartPart)
unfolding jsvalue_to_body
read_parts [] = some []
read_parts (v ∷ values) =
    let rest = read_parts values in
    elim (read_part v) [
      | none ↦ none
      | some p ↦ elim rest [ none ↦ none | some parts ↦ some (p ∷ parts) ]
    ]

unfoldable pub jsvalue_to_multipart : MultipartValue → Option (List MultipartPart)
unfolding read_parts
jsvalue_to_multipart absent = some []
jsvalue_to_multipart not_array = none
jsvalue_to_multipart bad_length = none
jsvalue_to_multipart (array values) = read_parts values

unfoldable pub method_from_string : Bytes → Method
unfolding bytes_eq
method_from_string m =
    if bytes_eq m (codes "get") || bytes_eq m (codes "GET")
    then get
    else if bytes_eq m (codes "post") || bytes_eq m (codes "POST")
    then post
    else if bytes_eq m (codes "put") || bytes_eq m (codes "PUT")
    then put
    else if bytes_eq m (codes "patch") || bytes_eq m (codes "PATCH")
    then patch
    else if bytes_eq m (codes "delete") || bytes_eq m (codes "DELETE")
    then delete
    else get
