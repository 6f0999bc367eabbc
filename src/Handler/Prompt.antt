-- ===== src/Handler/Prompt.antt =====
-- `applyProjectPromptContext`: the project's prompts before the messages of a request.
use rillan.Base.{
  Option, none, some, List, [], ◌∷◌, ◌++◌, if◌then◌else◌, is_empty, Str, lit, trim_space,
}
use rillan.Config.{ProjectConfig}
use rillan.Chat.{Message, ChatCompletionRequest, Json}

-- `read_skill` is the text of an installed skill: agent.GetInstalledSkill and os.ReadFile.
module _ (json : Json) (read_skill : Str → Option Str) where
  unfoldable pub new_system_message : Str → Message
  new_system_message text = record { role = lit "system"; content = json.quote text; extra = [] }

  -- The message of a text, trimmed, if anything is left.
  abbrev pub text_message : Str → List Message
  text_message raw =
      let text = trim_space raw in if is_empty text then [] else new_system_message text ∷ []

  -- The loop over the skills.
  unfoldable pub skill_messages : List Str → Option (List Message)
  unfolding new_system_message
  skill_messages [] = some []
  skill_messages (id ∷ ids) =
      let rest = skill_messages ids in
      elim (read_skill id) [
        | none ↦ none
        | some content ↦ elim rest [
          | none ↦ none
          | some messages ↦ some (text_message content ++ messages)
        ]
      ]

  -- The loop over the instructions.
  unfoldable pub instruction_messages : List Str → List Message
  unfolding new_system_message
  instruction_messages [] = []
  instruction_messages (i ∷ is) = text_message i ++ instruction_messages is

  unfoldable pub build_project_prompt_messages : ProjectConfig → Option (List Message)
  unfolding skill_messages instruction_messages
  build_project_prompt_messages project = elim (skill_messages project.skills_enabled) [
    | none ↦ none
    | some skills ↦ some (
        text_message project.system_prompt ++ (skills ++ instruction_messages project.instructions))
  ]

  unfoldable pub apply_project_prompt_context :
      {F : Type 0} → ChatCompletionRequest F → ProjectConfig → Option (ChatCompletionRequest F)
  unfolding build_project_prompt_messages
  apply_project_prompt_context req project = elim (build_project_prompt_messages project) [
    | none ↦ none
    | some messages ↦ some (record req { messages = messages ++ req.messages })
  ]
