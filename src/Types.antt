-- ===== src/Types.antt =====
-- internal/types/types.go: messages, tools and models. A string that the code only compares with
-- fixed literals is a data type with a constructor for each literal, and `other` for any other
-- text. A value of the code's `any` is a JSON value.
mod Value
pub use Value.{Json, Items, Fields, null, bool, num, str, arr, obj, nil, cons, end, field}
pub use Value.{is_empty_fields}
unfoldable pub use Value.{lookup_field}
use pi_go_coding_agent.Base.{ℕ, String, Bool, false, List, [], ◌∷◌, Option, none}

pub data Role : Type 0 where
  user assistant tool : Role
  other : String → Role

pub data BlockType : Type 0 where
  text thinking tool_call : BlockType
  other : String → BlockType

pub record ContentBlock : Type 0 where
  pub type : BlockType
  pub body : String
  pub thoughts : String
  pub thinking_sig : String
  pub blob : String
  pub mime_type : String
  pub id : String
  pub name : String
  pub arguments : Fields
  pub text_signature : String
  pub thought_signature : String

-- Go's zero value, with a type.
abbrev pub empty_block : BlockType → ContentBlock
empty_block t = record {
  type = t;
  body = "";
  thoughts = "";
  thinking_sig = "";
  blob = "";
  mime_type = "";
  id = "";
  name = "";
  arguments = end;
  text_signature = "";
  thought_signature = "";
}

abbrev pub text_block : String → ContentBlock
text_block s = record (empty_block text) { body = s }

-- The counts are int64 in the code, and not negative in a response of a provider.
pub record Usage : Type 0 where
  pub input : ℕ
  pub output : ℕ
  pub cache_read : ℕ
  pub cache_write : ℕ
  pub total : ℕ

abbrev pub no_usage : Usage
no_usage = record { input = 0; output = 0; cache_read = 0; cache_write = 0; total = 0 }

pub record Message : Type 0 where
  pub role : Role
  pub content : List ContentBlock
  pub timestamp : ℕ
  pub tool_call_id : String
  pub tool_name : String
  pub is_error : Bool
  pub api : String
  pub provider : String
  pub model : String
  pub stop_reason : String
  pub error : String
  pub usage : Usage

abbrev pub empty_message : Role → Message
empty_message r = record {
  role = r;
  content = [];
  timestamp = 0;
  tool_call_id = "";
  tool_name = "";
  is_error = false;
  api = "";
  provider = "";
  model = "";
  stop_reason = "";
  error = "";
  usage = no_usage;
}

pub record Tool : Type 0 where
  pub name : String
  pub label : String
  pub description : String
  pub parameters : Fields

pub record ToolCall : Type 0 where
  pub id : String
  pub name : String
  pub arguments : Fields

-- `details` is `none` where the code's map is nil.
pub record ToolResult : Type 0 where
  pub content : List ContentBlock
  pub details : Option Fields
  pub is_error : Bool

-- TextMessage; the time is an argument.
abbrev pub text_message : ℕ → Role → String → Message
text_message now r s = record (empty_message r) { timestamp = now; content = text_block s ∷ [] }

-- ToolResultMessage
abbrev pub tool_result_message : ℕ → String → String → ToolResult → Message
tool_result_message now call_id name result = record (empty_message tool) {
  tool_call_id = call_id;
  tool_name = name;
  is_error = result.is_error;
  timestamp = now;
  content = result.content;
}
