-- ===== src/Domain/Values.antt =====
-- The values of the enumerations of src/llm_router/domain.py and src/llm_router/health/models.py.
use llm_router.Common.{String, Option, if◌then◌else◌, ◌==◌, some, none, string_eq}
use llm_router.Domain.{
  Capability, Tier, Protocol, anthropic_messages, streaming, fast, balanced, openai_responses,
  tools, deep, thinking, vision, prompt_cache, reasoning, structured_output, response_state,
  provider_managed_tools,
}
use Prim.Native.String.{String}

unfoldable pub capability_text : Capability → String
capability_text streaming = "streaming"
capability_text tools = "tools"
capability_text thinking = "thinking"
capability_text vision = "vision"
capability_text prompt_cache = "prompt_cache"
capability_text reasoning = "reasoning"
capability_text structured_output = "structured_output"
capability_text response_state = "response_state"
capability_text provider_managed_tools = "provider_managed_tools"

unfoldable pub protocol_text : Protocol → String
protocol_text anthropic_messages = "anthropic_messages"
protocol_text openai_responses = "openai_responses"

unfoldable pub tier_text : Tier → String
tier_text fast = "fast"
tier_text balanced = "balanced"
tier_text deep = "deep"

-- `Capability(text)`: `none` is `ValueError`.
unfoldable pub to_capability : String → Option Capability
to_capability s =
    if s == "streaming"
    then some streaming
    else if s == "tools"
    then some tools
    else if s == "thinking"
    then some thinking
    else if s == "vision"
    then some vision
    else if s == "prompt_cache"
    then some prompt_cache
    else if s == "reasoning"
    then some reasoning
    else if s == "structured_output"
    then some structured_output
    else if s == "response_state"
    then some response_state
    else if s == "provider_managed_tools"
    then some provider_managed_tools
    else none

unfoldable pub to_protocol : String → Option Protocol
to_protocol s =
    if s == "anthropic_messages"
    then some anthropic_messages
    else if s == "openai_responses"
    then some openai_responses
    else none

unfoldable pub to_tier : String → Option Tier
to_tier s =
    if s == "fast"
    then some fast
    else if s == "balanced"
    then some balanced
    else if s == "deep"
    then some deep
    else none
