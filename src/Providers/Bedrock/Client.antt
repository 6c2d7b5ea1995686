-- ===== src/Providers/Bedrock/Client.antt =====
-- internal/providers/bedrock.go: Complete. The service of the AWS SDK is a function.
use pi_go_coding_agent.Base.{
  ℕ, String, Bool, List, [], ◌∷◌, Option, none, some, not, ◌==◌, if◌then◌else◌,
}
use pi_go_coding_agent.Base.Text.{trim_space}
use pi_go_coding_agent.Session.World.{Result, ok, err}
use pi_go_coding_agent.Providers.Http.{bind}
use pi_go_coding_agent.Providers.OpenAi.Completion.{CompletionResponse}
use pi_go_coding_agent.Providers.OpenAi.Requests.{CompletionRequest}
use pi_go_coding_agent.Providers.Bedrock.History.{
  BedrockMessage, BedrockTool, said, bedrock_tool_config, bedrock_messages_from_context,
}
use pi_go_coding_agent.Providers.Bedrock.Answer.{ConverseOutput, bedrock_completion}

pub record ConverseInput : Type 0 where
  pub model_id : String
  pub messages : List BedrockMessage
  pub system : Option String
  pub tools : Option (List BedrockTool)

-- The service, with whether there is a client, the random source for the request and for the answer,
-- and the clock
pub record BedrockService : Type 0 where
  pub has_client : Bool
  pub random : ℕ → String
  pub random_back : ℕ → String
  pub now : ℕ
  pub converse : ConverseInput → Result ConverseOutput

or_empty_text : List BedrockMessage → List BedrockMessage
or_empty_text [] = record { role = "user"; content = said "" ∷ [] } ∷ []
or_empty_text (m ∷ ms) = m ∷ ms

config_unless_empty : List BedrockTool → Option (List BedrockTool)
config_unless_empty [] = none
config_unless_empty (t ∷ ts) = some (t ∷ ts)

unfoldable pub converse_input : BedrockService → CompletionRequest → ConverseInput
unfolding or_empty_text config_unless_empty
converse_input o r =
    let prompt = trim_space r.context.system_prompt in
    record {
      model_id = r.model.id;
      messages = or_empty_text (bedrock_messages_from_context o.random o.now r.context r.model);
      system = if prompt == "" then none else some prompt;
      tools = config_unless_empty (bedrock_tool_config r.context.tools);
    }

-- Complete
unfoldable pub bedrock_complete : BedrockService → CompletionRequest → Result CompletionResponse
unfolding converse_input bind
bedrock_complete o r =
    if not o.has_client
    then err "bedrock client is not configured; set AWS credentials/profile"
    else bind (o.converse (converse_input o r))
        λ out. ok (bedrock_completion o.random_back o.now r.model out)
