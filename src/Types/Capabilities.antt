-- ===== src/Types/Capabilities.antt =====
-- packages/types/src/index.ts: the capabilities, with their equality.
use jean_bot.Common.{ℕ, String, zero, suc, ◌≡◌, refl, ◌↔◌, true, Eq, nat_beq}
use jean_bot.Types.Codes.{codes_beq_iff}

pub data Capability : Type 0 where
  reasoning planning terminal browser filesystem memory research subagents : Capability
  communication skills software_development data_analysis writing automation : Capability
  project_management heartbeat security learning multimodality finance : Capability
  orchestration : Capability

abbrev capability_code : Capability → ℕ
capability_code Capability.reasoning = 0
capability_code Capability.planning = 1
capability_code Capability.terminal = 2
capability_code Capability.browser = 3
capability_code Capability.filesystem = 4
capability_code Capability.memory = 5
capability_code Capability.research = 6
capability_code Capability.subagents = 7
capability_code Capability.communication = 8
capability_code Capability.skills = 9
capability_code Capability.software_development = 10
capability_code Capability.data_analysis = 11
capability_code Capability.writing = 12
capability_code Capability.automation = 13
capability_code Capability.project_management = 14
capability_code Capability.heartbeat = 15
capability_code Capability.security = 16
capability_code Capability.learning = 17
capability_code Capability.multimodality = 18
capability_code Capability.finance = 19
capability_code Capability.orchestration = 20

abbrev capability_at : ℕ → Capability
capability_at zero = Capability.reasoning
capability_at (suc zero) = Capability.planning
capability_at (suc (suc zero)) = Capability.terminal
capability_at (suc (suc (suc zero))) = Capability.browser
capability_at (suc (suc (suc (suc zero)))) = Capability.filesystem
capability_at (suc (suc (suc (suc (suc zero))))) = Capability.memory
capability_at (suc (suc (suc (suc (suc (suc zero)))))) = Capability.research
capability_at (suc (suc (suc (suc (suc (suc (suc zero))))))) = Capability.subagents
capability_at (suc (suc (suc (suc (suc (suc (suc (suc zero)))))))) = Capability.communication
capability_at (suc (suc (suc (suc (suc (suc (suc (suc (suc zero))))))))) = Capability.skills
capability_at (suc (suc (suc (suc (suc (suc (suc (suc (suc (suc zero)))))))))) =
    Capability.software_development
capability_at (suc (suc (suc (suc (suc (suc (suc (suc (suc (suc (suc zero))))))))))) =
    Capability.data_analysis
capability_at (suc (suc (suc (suc (suc (suc (suc (suc (suc (suc (suc (suc zero)))))))))))) =
    Capability.writing
capability_at (suc (suc (suc (suc (suc (suc (suc (suc (suc (suc (suc (suc (suc zero))))))))))))) =
    Capability.automation
capability_at
      (suc (suc (suc (suc (suc (suc (suc (suc (suc (suc (suc (suc (suc (suc zero)))))))))))))) =
    Capability.project_management
capability_at
      (suc
        (suc (suc (suc (suc (suc (suc (suc (suc (suc (suc (suc (suc (suc (suc zero))))))))))))))) =
    Capability.heartbeat
capability_at
      (suc (
        suc (
          suc
            (suc (suc (suc (suc (suc (suc (suc (suc (suc (suc (suc (suc (suc zero)))))))))))))))) =
    Capability.security
capability_at
      (suc (
        suc (
          suc (
            suc (
              suc
                (suc (suc (suc (suc (suc (suc (suc (suc (suc (suc (suc (suc zero))))))))))))))))) =
    Capability.learning
capability_at
      (suc (
        suc (
          suc (
            suc (
              suc (
                suc (
                  suc
                    (suc (suc (suc (suc (suc (suc (suc (suc (suc (suc (suc zero)))))))))))))))))) =
    Capability.multimodality
capability_at
      (suc (
        suc (
          suc (
            suc (
              suc (
                suc (
                  suc (
                    suc (
                      suc
                        (suc (suc (suc (suc (suc (suc (suc (suc (suc (suc zero))))))))))))))))))) =
    Capability.finance
capability_at _ = Capability.orchestration

capability_at-code : (a : Capability) → capability_at (capability_code a) ≡ a
capability_at-code Capability.reasoning = refl
capability_at-code Capability.planning = refl
capability_at-code Capability.terminal = refl
capability_at-code Capability.browser = refl
capability_at-code Capability.filesystem = refl
capability_at-code Capability.memory = refl
capability_at-code Capability.research = refl
capability_at-code Capability.subagents = refl
capability_at-code Capability.communication = refl
capability_at-code Capability.skills = refl
capability_at-code Capability.software_development = refl
capability_at-code Capability.data_analysis = refl
capability_at-code Capability.writing = refl
capability_at-code Capability.automation = refl
capability_at-code Capability.project_management = refl
capability_at-code Capability.heartbeat = refl
capability_at-code Capability.security = refl
capability_at-code Capability.learning = refl
capability_at-code Capability.multimodality = refl
capability_at-code Capability.finance = refl
capability_at-code Capability.orchestration = refl

pub capability_beq_iff :
    (a b : Capability) → (nat_beq (capability_code a) (capability_code b) ≡ true) ↔ (a ≡ b)
capability_beq_iff = codes_beq_iff capability_code capability_at capability_at-code

instance abbrev pub capability_eq : Eq Capability
capability_eq = record {
  beq = λ a b. nat_beq (capability_code a) (capability_code b);
  beq_iff = capability_beq_iff;
}

-- The word of a capability, as it stands in the union.
abbrev pub capability_name : Capability → String
capability_name Capability.reasoning = "reasoning"
capability_name Capability.planning = "planning"
capability_name Capability.terminal = "terminal"
capability_name Capability.browser = "browser"
capability_name Capability.filesystem = "filesystem"
capability_name Capability.memory = "memory"
capability_name Capability.research = "research"
capability_name Capability.subagents = "subagents"
capability_name Capability.communication = "communication"
capability_name Capability.skills = "skills"
capability_name Capability.software_development = "software-development"
capability_name Capability.data_analysis = "data-analysis"
capability_name Capability.writing = "writing"
capability_name Capability.automation = "automation"
capability_name Capability.project_management = "project-management"
capability_name Capability.heartbeat = "heartbeat"
capability_name Capability.security = "security"
capability_name Capability.learning = "learning"
capability_name Capability.multimodality = "multimodality"
capability_name Capability.finance = "finance"
capability_name Capability.orchestration = "orchestration"
